-- ===== src/Img.antt =====
-- internal/img: what photoSwipe reads and draws of an image file.
pub mod Trash
pub mod Raw
pub mod Thumb
pub mod Exif
pub mod Orient
pub mod Examples
