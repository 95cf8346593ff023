-- ===== src/Pack/Selection.antt =====
-- pack.rs: which objects are packed. `extension_of` stands for `Path::extension` in lower case, with
-- the empty extension where a name has none. An extension is a list of character codes.
pub mod RoundTrip
use mediagit_core.Prelude.{
  ℕ, ◌*◌, length, Bool, true, false, ltb, Option, none, some, List, [], ◌∷◌, if◌then◌else◌,
}
use mediagit_core.Bytes.{listed}
use mediagit_core.Object.{ObjectType, blob, tree, commit, Oid}
use mediagit_core.Tree.{Name}
use mediagit_core.Pack.Writer.{PackWriter, add_object}

abbrev pub min_pack_size : ℕ
min_pack_size = 1024

-- psd, tif, tiff, bmp, wav, aiff, avi, mov: always packed.
abbrev raw_media : List (List ℕ)
raw_media =
    (112 ∷ 115 ∷ 100 ∷ [])
    ∷ (116 ∷ 105 ∷ 102 ∷ [])
    ∷ (116 ∷ 105 ∷ 102 ∷ 102 ∷ [])
    ∷ (98 ∷ 109 ∷ 112 ∷ [])
    ∷ (119 ∷ 97 ∷ 118 ∷ [])
    ∷ (97 ∷ 105 ∷ 102 ∷ 102 ∷ [])
    ∷ (97 ∷ 118 ∷ 105 ∷ [])
    ∷ (109 ∷ 111 ∷ 118 ∷ [])
    ∷ []

-- jpg, jpeg, png, webp: packed above 100 KB.
abbrev compressed_images : List (List ℕ)
compressed_images =
    (106 ∷ 112 ∷ 103 ∷ [])
    ∷ (106 ∷ 112 ∷ 101 ∷ 103 ∷ [])
    ∷ (112 ∷ 110 ∷ 103 ∷ [])
    ∷ (119 ∷ 101 ∷ 98 ∷ 112 ∷ [])
    ∷ []

-- mp4, mkv, flv, wmv: packed above 100 KB.
abbrev compressed_videos : List (List ℕ)
compressed_videos =
    (109 ∷ 112 ∷ 52 ∷ [])
    ∷ (109 ∷ 107 ∷ 118 ∷ [])
    ∷ (102 ∷ 108 ∷ 118 ∷ [])
    ∷ (119 ∷ 109 ∷ 118 ∷ [])
    ∷ []

-- txt, md, json, xml, html, css, js, ts, py, rs, go, java, c, cpp, h, hpp: always packed.
abbrev texts : List (List ℕ)
texts =
    (116 ∷ 120 ∷ 116 ∷ [])
    ∷ (109 ∷ 100 ∷ [])
    ∷ (106 ∷ 115 ∷ 111 ∷ 110 ∷ [])
    ∷ (120 ∷ 109 ∷ 108 ∷ [])
    ∷ (104 ∷ 116 ∷ 109 ∷ 108 ∷ [])
    ∷ (99 ∷ 115 ∷ 115 ∷ [])
    ∷ (106 ∷ 115 ∷ [])
    ∷ (116 ∷ 115 ∷ [])
    ∷ (112 ∷ 121 ∷ [])
    ∷ (114 ∷ 115 ∷ [])
    ∷ (103 ∷ 111 ∷ [])
    ∷ (106 ∷ 97 ∷ 118 ∷ 97 ∷ [])
    ∷ (99 ∷ [])
    ∷ (99 ∷ 112 ∷ 112 ∷ [])
    ∷ (104 ∷ [])
    ∷ (104 ∷ 112 ∷ 112 ∷ [])
    ∷ []

-- zip, gz, bz2, 7z, rar: never packed.
abbrev archives : List (List ℕ)
archives =
    (122 ∷ 105 ∷ 112 ∷ [])
    ∷ (103 ∷ 122 ∷ [])
    ∷ (98 ∷ 122 ∷ 50 ∷ [])
    ∷ (55 ∷ 122 ∷ [])
    ∷ (114 ∷ 97 ∷ 114 ∷ [])
    ∷ []

abbrev by_extension : ℕ → List ℕ → Bool
by_extension size ext =
    if listed ext raw_media
    then true
    else if listed ext compressed_images
    then ltb (100 * 1024) size
    else if listed ext compressed_videos
    then ltb (100 * 1024) size
    else if listed ext texts
    then true
    else if listed ext archives
    then false
    else ltb min_pack_size size

module _ (extension_of : Name → List ℕ) where
  abbrev by_name : ℕ → Option Name → Bool
  by_name size none = ltb min_pack_size size
  by_name size (some name) = by_extension size (extension_of name)

  unfoldable pub should_pack_object : ℕ → ObjectType → Option Name → Bool
  should_pack_object size blob filename =
      if ltb size min_pack_size then false else by_name size filename
  should_pack_object size tree filename = true
  should_pack_object size commit filename = true

  unfoldable pub smart_add_object :
      Oid → ObjectType → List ℕ → Option Name → PackWriter → PackWriter × Option ℕ
  smart_add_object oid t object filename w =
      let (added, offset) = add_object oid t object w in
      if should_pack_object (length object) t filename then (added, some offset) else (w, none)
