-- ===== src/Redis/Keys.antt =====
-- What the cache and the queue's configuration use of the Redis client for texts under text keys:
-- the commands are parameters, and `KeyLaws` states their documented effect. The clock of the server
-- is an argument of the commands that depend on it.
use mathlib.Core.List.{map}
use home_work_ad_processor_g.Prelude.{
  ◌≡◌, Bool, true, false, Option, none, some, List, [], ◌∷◌, String, str_eq, if◌then◌else◌, ℤ, pos,
  ◌+ℤ◌, leb_ℤ, ltb_ℤ,
}
use home_work_ad_processor_g.Redis.{Reply, ok, nil}

pub record KeyValue : Type 1 where
  pub Store : Type 0
  pub get : Store → ℤ → String → Reply String
  pub set : Store → ℤ → String → String → ℤ → Store × Reply (Unit {0})
  pub mget : Store → ℤ → List String → Reply (List (Option String))
  pub del : Store → List String → Store × Reply (Unit {0})
  pub keys : Store → ℤ → String → Reply (List String)
  pub exec : Store → ℤ → List (String × String) → ℤ → Store × Reply (Unit {0})  -- SETs in one pipeline

abbrev pub text_reply : Option String → Reply String
text_reply none = nil
text_reply (some x) = ok x

-- Whether a text that was set at a time is still there: 0 sets no expiry.
abbrev pub alive : ℤ → ℤ → ℤ → Bool
alive set_at ttl now = if leb_ℤ ttl (pos 0) then true else ltb_ℤ now (set_at +ℤ ttl)

abbrev pub among : String → List String → Bool
among key [] = false
among key (other ∷ keys) = let rest = among key keys in if str_eq other key then true else rest

pub record KeyLaws (kv : KeyValue) : Type 1 where
  pub Up : kv.Store → Type 0
  pub content : kv.Store → ℤ → String → Option String
  pub get_lem :
      (s : kv.Store) (now : ℤ) (k : String) → Up s → kv.get s now k ≡ text_reply (content s now k)
  pub mget_lem :
      (s : kv.Store) (now : ℤ) (ks : List String)
      → Up s
      → kv.mget s now ks ≡ ok (map (content s now) ks)
  pub set_ok :
      (s : kv.Store) (now : ℤ) (k v : String) (ttl : ℤ) → Up s → (kv.set s now k v ttl).1 ≡ ok tt
  pub set-Up :
      (s : kv.Store) (now : ℤ) (k v : String) (ttl : ℤ) → Up s → Up (kv.set s now k v ttl).0
  pub content-set :
      (s : kv.Store) (now : ℤ) (k v : String) (ttl t : ℤ) (key : String)
      → Up s
      → content (kv.set s now k v ttl).0 t key
        ≡ (if str_eq k key then if alive now ttl t then some v else none else content s t key)
  pub del-Up : (s : kv.Store) (ks : List String) → Up s → Up (kv.del s ks).0
  pub del_ok : (s : kv.Store) (k : String) (ks : List String) → Up s → (kv.del s (k ∷ ks)).1 ≡ ok tt
  pub content-del :
      (s : kv.Store) (k : String) (ks : List String) (t : ℤ) (key : String)
      → Up s
      → content (kv.del s (k ∷ ks)).0 t key ≡ (if among key (k ∷ ks) then none else content s t key)
