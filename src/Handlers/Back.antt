-- ===== src/Handlers/Back.antt =====
-- POST /undo after POST /decision: the photo and its file are what they were.
use photo_swipe.Prelude.{◌≡◌, refl, sym, ap, ◌∙◌, String, true, false, none, some, arith, str_eq}
use photo_swipe.Prelude.Map.{lookup, insert}
use photo_swipe.Store.Photo.{Photo, Time, trashed}
use photo_swipe.Store.Session.{Session, Decision}
use photo_swipe.Store.State.{Store, Env, Result, ok, err, result-commit}
use photo_swipe.Store.Decisions.{record_decision, count_on, decision}
use photo_swipe.Store.Undo.{undo, undone}
use photo_swipe.Store.Undo.Rollback.{HasRoom}
use photo_swipe.Store.Undo.Single.{undo-record_decision, undecided, undone-record_decision}
use photo_swipe.Store.Photos.{get_photo}
use photo_swipe.Img.Trash.{Disk, moved_to, move_to_trash, restore_from_trash}
use photo_swipe.Img.Trash.Moves.{restore_from_trash-move_to_trash}
use photo_swipe.Handlers.{Call, Deps, Site, Form, form_value, resolve_photo_path}
use photo_swipe.Handlers.Decide.{
  handle_decision, act, handle_trash, then_next, handle_undo, after_undo, show_undone, put_back,
}

site-then_next :
    {A : Type 0} (call : Call) (disk : Disk) (r : Result A × Store)
    → (then_next call disk r).1 ≡ record { store = r.1; disk = disk }
site-then_next call disk (ok _, s) = refl
site-then_next call disk (err _, s) = refl

-- What POST /decision leaves when the action is "trash" and the file moves to `dst`.
trash-site :
    (call : Call) (deps : Deps) (form : Form) (site : Site) (p : Photo) (src dst : String)
    (disk : Disk)
    → form_value "action" form ≡ "trash"
    → lookup (form_value "photo_id" form) site.store.state.photos ≡ some p
    → resolve_photo_path call deps p.path ≡ some src
    → move_to_trash call.paths call.os src deps.photo_dir deps.trash_dir site.disk
      ≡ (moved_to dst, disk)
    → (handle_decision call deps (some form) site).1 ≡ record {
      store = (record_decision call.env (form_value "photo_id" form) trashed src dst site.store).1;
      disk = disk;
    }
unfolding handle_decision act handle_trash get_photo
trash-site call deps form site p src dst disk a l r m =
    rw (l, a, r, m, handle_decision, act, handle_trash)
      (site-then_next call disk
        (record_decision call.env (form_value "photo_id" form) trashed src dst site.store))

undo-result :
    (env env' : Env) (id : String) (src dst : String) (s : Store) (p : Photo) (sess : Session)
    (d : Decision)
    → lookup id s.state.photos ≡ some p
    → s.state.session ≡ some sess
    → env'.day env.now ≡ env.day env.now
    → HasRoom 1 sess.done
    → HasRoom 1 (count_on (env.day env.now) s.state.daily_stats)
    → (undo env' (record_decision env id trashed src dst s).1).0 ≡ ok d
    → (undo env' (record_decision env id trashed src dst s).1).0
      ≡ ok (decision env.now id trashed src dst p)
unfolding undo
undo-result env env' id src dst s p sess d l f same room room' e =
    let s' = (record_decision env id trashed src dst s).1 in
    e
    ∙ sym (result-commit env' s' (undone env' s'.state) d e)
    ∙ ap (λ r. r.0)
        (undone-record_decision env env' id trashed src dst s p sess l f same room room')

site-after_undo :
    (call : Call) (disk : Disk) (d : Decision) (r : Result Decision × Store)
    → r.0 ≡ ok d
    → (after_undo call disk r).1 ≡ (show_undone call d.cluster d.skipped d r.1 disk).1
site-after_undo call disk d (err x, s) e = absurd (ground (arith, e))
site-after_undo call disk d (ok d', s) e =
    ap (λ (x : Decision). (show_undone call x.cluster x.skipped x s disk).1) (ground (arith, e))

put_back_lem :
    (call : Call) (src dst : String) (disk disk' : Disk)
    → str_eq src "" ≡ false
    → str_eq dst "" ≡ false
    → restore_from_trash call.paths call.os dst src disk ≡ (true, disk')
    → put_back call trashed src dst disk ≡ disk'
unfolding put_back
put_back_lem call src dst disk disk' ns nd back = rw (ns, nd, put_back) (ap (λ r. r.1) back)

shown-decision :
    (call : Call) (now : Time) (id src dst : String) (p : Photo) (s : Store) (disk : Disk)
    → (show_undone call none false (decision now id trashed src dst p) s disk).1
      ≡ record { store = s; disk = put_back call trashed src dst disk }
unfolding show_undone decision
shown-decision call now id src dst p s disk = refl

-- POST /decision moved the photo's file to the trash and recorded it; POST /undo then took it back
-- and moved the file back, each without an error. The session is as before, and so is every photo
-- but this one, which has its state, its counters and its `LastSeenAt` again; and every path has
-- the file that it had. This holds if the counters have room for the decision and the day is
-- printed alike both times.
pub handle_undo-handle_decision :
    (call call' : Call) (deps : Deps) (form : Form) (site : Site) (p : Photo) (sess : Session)
    (d : Decision) (src dst path : String) (disk disk' : Disk)
    → form_value "action" form ≡ "trash"
    → lookup (form_value "photo_id" form) site.store.state.photos ≡ some p
    → site.store.state.session ≡ some sess
    → resolve_photo_path call deps p.path ≡ some src
    → move_to_trash call.paths call.os src deps.photo_dir deps.trash_dir site.disk
      ≡ (moved_to dst, disk)
    → str_eq src "" ≡ false
    → str_eq dst "" ≡ false
    → restore_from_trash call'.paths call'.os dst src disk ≡ (true, disk')
    → call'.env.day call.env.now ≡ call.env.day call.env.now
    → HasRoom 1 sess.done
    → HasRoom 1 (count_on (call.env.day call.env.now) site.store.state.daily_stats)
    → (undo call'.env (handle_decision call deps (some form) site).1.store).0 ≡ ok d
    → ((handle_undo call' (handle_decision call deps (some form) site).1).1.store.state
        ≡ record site.store.state {
          photos =
              insert
                (form_value "photo_id" form)
                (undecided call.env trashed p)
                site.store.state.photos;
          daily_stats =
              insert
                (call.env.day call.env.now)
                (count_on (call.env.day call.env.now) site.store.state.daily_stats)
                site.store.state.daily_stats;
        })
      × (lookup path (handle_undo call' (handle_decision call deps (some form) site).1).1.disk.files
          ≡ lookup path site.disk.files)
unfolding handle_undo decision
handle_undo-handle_decision call call' deps form site p sess d src dst path disk disk' a l f r m ns
      nd back same room room' done =
    let id = form_value "photo_id" form in
    let s = (record_decision call.env id trashed src dst site.store).1 in
    let left = trash-site call deps form site p src dst disk a l r m in
    let result =
      undo-result call.env call'.env id src dst site.store p sess d l f same room room'
        (ap (λ (x : Site). (undo call'.env x.store).0) (sym left) ∙ done) in
    let after : (handle_undo call' (handle_decision call deps (some form) site).1).1
        ≡ record { store = (undo call'.env s).1; disk = disk' } =
      ap (λ x. (handle_undo call' x).1) left
      ∙ site-after_undo call' disk (decision call.env.now id trashed src dst p) (undo call'.env s)
          result
      ∙ shown-decision call' call.env.now id src dst p (undo call'.env s).1 disk
      ∙ ap (λ x. record { store = (undo call'.env s).1; disk = x })
          (put_back_lem call' src dst disk disk' ns nd back) in
    (
      ap (λ (x : Site). x.store.state) after
          ∙ undo-record_decision call.env call'.env id trashed src dst site.store p sess l f same
              room room',
      ap (λ (x : Site). lookup path x.disk.files) after
          ∙ restore_from_trash-move_to_trash call.paths call'.paths call.os call'.os src
              deps.photo_dir deps.trash_dir dst path site.disk disk disk' m back,
    )
