-- ===== src/Engine/Value.antt =====
-- What the handlers of libs/kuli-engine/src/engine.cpp share: reading a JSON value that may be of the
-- wrong type, results, name filters and the order of the lines.
use kuli.Common.{
  ℕ, Bool, true, false, not, ◌&&◌, ◌||◌, List, [], ◌∷◌, ◌++◌, Option, none, some, if◌then◌else◌,
  Bytes, codes, same, is_empty, ltb, ◌==◌, getlines, starts_with, ends_with, map,
}
use kuli.Diag.{Diagnostic, render}
use kuli.Json.{JsonApi}
use kuli.Engine.Glob.{glob_match}

pub data ℤ : Type 0 where
  pos : ℕ → ℤ
  negsuc : ℕ → ℤ

-- Further operations of the JSON library. `converts` holds where `get<int>` does not throw, and
-- `parse` gives some value that is no object where the text is no JSON.
pub record JsonText (J : Type 0) : Type 0 where
  pub get_boolean : J → Bool
  pub converts : J → Bool
  pub get_integer : J → ℤ
  pub parse : Bytes → J
  -- `j.dump()`, `j.dump(2)`, and the keys of `j.items()`.
  pub dump : J → Bytes
  pub pretty : J → Bytes
  pub keys : J → List Bytes
  -- `j[key] = v`
  pub put : J → Bytes → J → J

-- `none` is an exception of the JSON library, which no caller catches.
infixl 5 ◌>>=◌ ◌>>◌
abbrev pub ◌>>=◌ {ℓ κ} : {A : Type ℓ} {B : Type κ} → Option A → (A → Option B) → Option B
none >>= f = none
some a >>= f = f a

abbrev pub ◌>>◌ {ℓ κ} : {A : Type ℓ} {B : Type κ} → Option A → Option B → Option B
m >> k = m >>= λ _. k

-- `RawResult`; the engine leaves its `structured` unset.
pub record RawResult : Type 0 where
  pub exit_code : ℕ
  pub lines : List Bytes
  pub raw_stderr : Bytes
  pub session_id : Bytes

abbrev pub lines_only : List Bytes → RawResult
lines_only lines = record { exit_code = 0; lines = lines; raw_stderr = []; session_id = [] }

unfoldable pub fail : ℕ → Diagnostic → Bytes → RawResult
fail code d session_id = record {
  exit_code = code;
  lines = [];
  raw_stderr = render d false;
  session_id = session_id;
}

module _ {J : Type 0} (json : JsonApi J) (io : JsonText J) where
  open json use {is_object, is_string, is_boolean, contains, at, get_string, elements}

  -- `j.value(key, fallback)` throws where `j` is no object or the key holds another type.
  unfoldable pub json_value {ℓ} : {A : Type ℓ} → (J → Bool) → (J → A) → J → Bytes → A → Option A
  json_value test get j key fallback =
      if not (is_object j)
      then none
      else if not (contains j key)
      then some fallback
      else if test (at j key)
      then some (get (at j key))
      else none

  abbrev pub value_string : J → Bytes → Bytes → Option Bytes
  value_string = json_value is_string get_string

  abbrev pub value_boolean : J → Bytes → Bool → Option Bool
  value_boolean = json_value is_boolean io.get_boolean

  abbrev pub value_integer : J → Bytes → ℤ → Option ℤ
  value_integer = json_value io.converts io.get_integer

  abbrev pub any_value : J → Bool
  any_value j = true

  -- `j.value(key, json::array())`, as far as the loops over it go: its elements.
  abbrev pub value_elements : J → Bytes → Option (List J)
  value_elements j key = json_value any_value elements j key []

  -- `j.value(key, fallback)` for a fallback that is JSON itself.
  abbrev pub value_json : J → Bytes → J → Option J
  value_json = json_value any_value (λ v. v)

  -- The texts among the elements.
  unfoldable pub texts_of : List J → List Bytes
  texts_of [] = []
  texts_of (g ∷ gs) = if is_string g then get_string g ∷ texts_of gs else texts_of gs

  abbrev pub value_texts : J → Bytes → Option (List Bytes)
  value_texts j key = value_elements j key >>= λ gs. some (texts_of gs)

  unfoldable pub local_at : J → Option Bool
  local_at node = do
    at ← value_string node (codes "at") (codes "local:")
    some (same at (codes "local:") || same at (codes "local"))

-- `name_ok`, and the same test in the two queries with a `hit`.
pub any_glob : List Bytes → Bytes → Bool
any_glob [] name = false
any_glob (g ∷ gs) name = glob_match g name || any_glob gs name

unfoldable pub name_ok : List Bytes → Bytes → Bool
unfolding any_glob
name_ok [] name = true
name_ok (g ∷ gs) name = any_glob (g ∷ gs) name

-- `std::sort` by a comparison; of equal items, which it may exchange, the order is kept.
unfoldable pub insert_by {ℓ} : {A : Type ℓ} → (A → A → Bool) → A → List A → List A
insert_by le x [] = x ∷ []
insert_by le x (y ∷ ys) = let rest = insert_by le x ys in if le x y then x ∷ y ∷ ys else y ∷ rest

unfoldable pub sort_by {ℓ} : {A : Type ℓ} → (A → A → Bool) → List A → List A
unfolding insert_by
sort_by le [] = []
sort_by le (x ∷ xs) = insert_by le x (sort_by le xs)

-- Not greater, in the order of `std::string`.
unfoldable pub bytes_le : Bytes → Bytes → Bool
bytes_le [] b = true
bytes_le (x ∷ a) [] = false
bytes_le (x ∷ a) (y ∷ b) = ltb x y || (x == y && bytes_le a b)

-- The lines of `std::getline`, each without one carriage return at its end.
unfoldable pub drop_return : Bytes → Bytes
drop_return [] = []
drop_return (c ∷ []) = if c == 13 then [] else c ∷ []
drop_return (c ∷ d ∷ s) = c ∷ drop_return (d ∷ s)

unfoldable pub output_lines : Bytes → List Bytes
output_lines s = map drop_return (getlines b'\n' s)

-- `joined += (joined.empty() ? "" : " ") + a` for each word.
pub join_onto : Bytes → List Bytes → Bytes
join_onto joined [] = joined
join_onto joined (w ∷ ws) =
    join_onto (joined ++ ((if is_empty joined then [] else b' ' ∷ []) ++ w)) ws

unfoldable pub join_words : List Bytes → Bytes
unfolding join_onto
join_words ws = join_onto [] ws

-- `p.is_relative() ? cwd / p : p`
abbrev pub under_cwd : Bytes → Bytes → Bytes
under_cwd cwd p =
    if starts_with (b'/' ∷ []) p
    then p
    else cwd ++ ((if is_empty cwd || ends_with cwd (b'/' ∷ []) then [] else b'/' ∷ []) ++ p)
