-- ===== src/Img/Trash/Names.antt =====
-- uniqueDest ends: among more names than there are files and directories, one is free.
use photo_swipe.Prelude.{
  ℕ, zero, suc, ◌+◌, ◌≤◌, ◌<◌, ◌≡◌, refl, sym, ap, ◌∙◌, String, true, false, ◌||◌, none, some, List,
  [], ◌∷◌, ◌++◌, map, arith, length, length-append, mem, str_eq, eq_iff, if◌then◌else◌, Bool-cases,
  inl, inr,
}
use text.Mathlib.TextLemmas.{append_cancel_left, append_cancel_right}
use Prim.Native.String.{◌++◌ as ◌⧺◌}
use photo_swipe.Prelude.Map.{Map, lookup}
use photo_swipe.Img.Trash.{
  Paths, Disk, Answers, is_taken, is_missing, candidate, base_of, first_free, unique_dest,
  rounds_for,
}

-- The names of `held` other than `x`.
unfoldable without : String → List String → List String
without x [] = []
without x (y ∷ held) = let rest = without x held in if str_eq y x then rest else y ∷ rest

length-without-le : (x : String) (held : List String) → length (without x held) ≤ length held
unfolding without
length-without-le x [] = omega arith
length-without-le x (y ∷ held) = ground (arith, length-without-le x held)

length-without :
    (x : String) (held : List String) → mem x held ≡ true → length (without x held) < length held
unfolding without
length-without x [] h = absurd (ground arith)
length-without x (y ∷ held) h = ground (arith, length-without x held, length-without-le x held)

mem-without :
    (x z : String) (held : List String) → str_eq x z ≡ false → mem z (without x held) ≡ mem z held
unfolding without
mem-without x z [] ne = refl
mem-without x z (y ∷ held) ne =
    ground (arith, mem-without x z held ne, eq_iff y x, eq_iff y z, eq_iff x z)

-- Of different names, one more than `held` has, one is not among `held`.
free_name :
    (f : ℕ → String)
    → ((i j : ℕ) → f i ≡ f j → i ≡ j)
    → (n k : ℕ) (held : List String) → length held ≤ n
    → (i : ℕ) × (k ≤ i) × (i ≤ k + n) × (mem (f i) held ≡ false)
free_name f inj zero k [] h = (k, omega arith, omega arith, refl)
free_name f inj zero k (x ∷ held) h = absurd (omega arith)
free_name f inj (suc n) k held h = elim (Bool-cases (mem (f k) held)) [
  | inr e ↦ (k, omega arith, omega arith, e)
  | inl e ↦
      let (i, lo, hi, m) =
        free_name f inj n (suc k) (without (f k) held)
          (omega (arith, length-without (f k) held e)) in
      let differ : str_eq (f k) (f i) ≡ false = ground (arith, eq_iff (f k) (f i), inj k i) in
      (i, omega arith, omega arith, sym (mem-without (f k) (f i) held differ) ∙ m)
]

-- All paths at which there is something.
abbrev taken : Disk → List String
taken disk = map (λ e. e.0) disk.files ++ disk.dirs

mem-append : (x : String) (ys zs : List String) → mem x (ys ++ zs) ≡ (mem x ys || mem x zs)
mem-append x [] zs = refl
mem-append x (y ∷ ys) zs = ground (arith, mem-append x ys zs)

mem-keys :
    (x : String) (files : Map String)
    → mem x (map (λ e. e.0) files) ≡ elim (lookup x files) [ none ↦ false | some _ ↦ true ]
unfolding lookup
mem-keys x [] = refl
mem-keys x ((y, c) ∷ files) = ground (arith, mem-keys x files)

is_taken-taken : (x : String) (disk : Disk) → is_taken x disk ≡ mem x (taken disk)
unfolding is_taken
is_taken-taken x disk = sym (
    mem-append x (map (λ e. e.0) disk.files) disk.dirs
    ∙ ap (λ b. b || mem x disk.dirs) (mem-keys x disk.files))

length-keys : (files : Map String) → length (map (λ e. e.0) files) ≡ length files
length-keys [] = refl
length-keys (e ∷ files) = ap suc (length-keys files)

-- The loop stops at the latest at a name that is missing.
first_free_lem :
    (rounds : ℕ) (paths : Paths) (os : Answers) (dst : String) (k i : ℕ) (disk : Disk)
    → k ≤ i
    → i < k + rounds
    → is_missing os (candidate paths dst i) disk ≡ true
    → (free : String) × (first_free rounds paths os dst k disk ≡ some free)
      × (is_missing os free disk ≡ true)
unfolding first_free
first_free_lem zero paths os dst k i disk lo hi e = absurd (omega arith)
first_free_lem (suc rounds) paths os dst k i disk lo hi e =
    elim (Bool-cases (is_missing os (candidate paths dst k) disk)) [
      | inl free ↦ (candidate paths dst k, rw free refl, free)
      | inr held ↦
          let later : suc k ≤ i =
            ground (arith, ap (λ j. is_missing os (candidate paths dst j) disk)) in
          let (free, ran, f) =
            first_free_lem rounds paths os dst (suc k) i disk later (omega arith) e in
          (free, rw held ran, f)
    ]

first_free-is_missing :
    (rounds : ℕ) (paths : Paths) (os : Answers) (dst free : String) (i : ℕ) (disk : Disk)
    → first_free rounds paths os dst i disk ≡ some free
    → is_missing os free disk ≡ true
unfolding first_free
first_free-is_missing zero paths os dst free i disk e = absurd (ground arith)
first_free-is_missing (suc rounds) paths os dst free i disk e =
    ground (arith, e, first_free-is_missing rounds paths os dst free (suc i) disk)

pub unique_dest-is_missing :
    (paths : Paths) (os : Answers) (dst free : String) (disk : Disk)
    → unique_dest paths os dst disk ≡ some free
    → is_missing os free disk ≡ true
unfolding unique_dest
unique_dest-is_missing paths os dst free disk e =
    ground (arith, e, first_free-is_missing (rounds_for disk) paths os dst free 0 disk)

candidate_inj :
    (paths : Paths) (dst : String)
    → ((i j : ℕ) → paths.decimal i ≡ paths.decimal j → i ≡ j)
    → (i j : ℕ) → candidate paths dst (suc i) ≡ candidate paths dst (suc j)
    → i ≡ j
candidate_inj paths dst inj i j e = omega (arith, inj (suc i) (suc j) numbers)
  where
    printed : ℕ → String
    printed i = paths.decimal (suc i)

    after_stamp : "-" ⧺ printed i ⧺ paths.ext dst ≡ "-" ⧺ printed j ⧺ paths.ext dst
    after_stamp =
        append_cancel_left paths.stamp _ _
          (append_cancel_left "." _ _ (append_cancel_left (base_of paths dst) _ _ e))

    numbers : printed i ≡ printed j
    numbers =
        append_cancel_right (printed i) (printed j) (paths.ext dst)
          (append_cancel_left "-" _ _ after_stamp)

-- os.Stat does not fail with another error than ErrNotExist on the names of as many rounds as there
-- are files and directories, and two more.
abbrev pub Answering : Paths → Answers → String → ℕ → Type 0
Answering paths os dst n = (i : ℕ) → i ≤ suc n → os.stat_ok (candidate paths dst i) ≡ true

untaken :
    (os : Answers) (path : String) (disk : Disk)
    → os.stat_ok path ≡ true
    → is_taken path disk ≡ false
    → is_missing os path disk ≡ true
unfolding is_missing
untaken os path disk e f = ground (arith, e, f)

-- uniqueDest returns, and nothing is at the path that it returns, where fmt prints no two numbers
-- alike and os.Stat answers for the names that are tried.
pub unique_dest-Returns :
    (paths : Paths) (os : Answers) (dst : String) (disk : Disk)
    → ((i j : ℕ) → paths.decimal i ≡ paths.decimal j → i ≡ j)
    → Answering paths os dst (length disk.files + length disk.dirs)
    → (free : String) × (unique_dest paths os dst disk ≡ some free)
      × (is_missing os free disk ≡ true)
unfolding unique_dest
unique_dest-Returns paths os dst disk inj answers = elim (Bool-cases (is_missing os dst disk)) [
  | inl e ↦ (dst, rw e refl, e)
  | inr e ↦
      let (i, lo, hi, m) =
        free_name (λ i. candidate paths dst (suc i)) (candidate_inj paths dst inj)
          (length (taken disk)) 0 (taken disk) (omega arith) in
      let counted : length (taken disk) ≡ length disk.files + length disk.dirs =
        omega
          (arith, length-append (map (λ e. e.0) disk.files) disk.dirs, length-keys disk.files) in
      let (free, ran, f) =
        first_free_lem (rounds_for disk) paths os dst 0 (suc i) disk (omega arith) (omega arith) (
          untaken os (candidate paths dst (suc i)) disk (answers (suc i) (omega arith))
            (is_taken-taken (candidate paths dst (suc i)) disk ∙ m)) in
      (free, rw e ran, f)
]
