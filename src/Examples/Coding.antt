-- ===== src/Examples/Coding.antt =====
-- A text for a list of texts that can be read back, in the place of JSON: each character after a
-- mark, and a full stop after each text.
use Prim.Native.Char.{Char, code}
use home_work_ad_processor_g.Prelude.{
  ◌≡◌, refl, ap, Option, none, some, List, [], ◌∷◌, String, ◌==◌, if◌then◌else◌,
}

abbrev mark : Char
mark = "x"

abbrev stop : Char
stop = "."

abbrev write_text : String → String → String
write_text String.[] rest = String.◌∷◌ stop rest
write_text (String.◌∷◌ c s) rest = String.◌∷◌ mark (String.◌∷◌ c (write_text s rest))

abbrev pub write : List String → String
write [] = ""
write (s ∷ l) = write_text s (write l)

-- A character before the first text.
abbrev before_first : Char → Option (List String) → Option (List String)
before_first c none = none
before_first c (some []) = none
before_first c (some (s ∷ l)) = some (String.◌∷◌ c s ∷ l)

abbrev after_stop : Option (List String) → Option (List String)
after_stop none = none
after_stop (some l) = some ("" ∷ l)

abbrev pub read : String → Option (List String)
read String.[] = some []
read (String.◌∷◌ m String.[]) = if code m == code stop then after_stop (some []) else none
read (String.◌∷◌ m (String.◌∷◌ c t)) =
    let marked = before_first c (read t) in
    let stopped = after_stop (read (String.◌∷◌ c t)) in
    if code m == code stop then stopped else marked

read-write_text :
    (s rest : String) (l : List String)
    → read rest ≡ some l
    → read (write_text s rest) ≡ some (s ∷ l)
read-write_text String.[] String.[] l e = ap after_stop e
read-write_text String.[] (String.◌∷◌ c t) l e = ap after_stop e
read-write_text (String.◌∷◌ c s) rest l e = ap (before_first c) (read-write_text s rest l e)

pub read-write : (l : List String) → read (write l) ≡ some l
read-write [] = refl
read-write (s ∷ l) = read-write_text s (write l) l (read-write l)
