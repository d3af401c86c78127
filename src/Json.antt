-- ===== src/Json.antt =====
-- The operations of the JSON library (nlohmann::json) that the program calls. The library is no
-- part of the repository: its values are a type `J`, and its operations a parameter.
use kuli.Common.{
  Bool, true, false, List, [], ◌∷◌, Option, none, some, if◌then◌else◌, Bytes, same, ◌≡◌, All,
}

pub record JsonApi (J : Type 0) : Type 0 where
  -- `is_object`, `is_array`, `is_string`, `is_boolean`, `is_number_integer`, `empty`.
  pub is_object : J → Bool
  pub is_array : J → Bool
  pub is_string : J → Bool
  pub is_boolean : J → Bool
  pub is_number_integer : J → Bool
  pub empty : J → Bool
  -- `j.contains(key)` and `j[key]`; the program reads a key only where `contains` holds.
  pub contains : J → Bytes → Bool
  pub at : J → Bytes → J
  -- `j.get<std::string>()`.
  pub get_string : J → Bytes
  -- The values of `for (const auto& e : j)` and of `for (const auto& [_, v] : j.items())`.
  pub elements : J → List J
  pub values : J → List J

abbrev pub find_key {ℓ} : {V : Type ℓ} → List (Bytes × V) → Bytes → Option V
find_key [] key = none
find_key ((k, v) ∷ m) key = let rest = find_key m key in if same k key then some v else rest

abbrev pub is_some {ℓ} : {V : Type ℓ} → Option V → Bool
is_some none = false
is_some (some v) = true

-- The values that the program builds, and what the documentation says of reading them back: a text
-- and an array hold what they were built from, an object has its members, the first of each key,
-- and is traversed in some order.
pub record JsonMake {J : Type 0} (json : JsonApi J) : Type 1 where
  pub string : Bytes → J
  pub boolean : Bool → J
  pub array : List J → J
  pub object : List (Bytes × J) → J
  pub string_is_string : (s : Bytes) → json.is_string (string s) ≡ true
  pub string_text : (s : Bytes) → json.get_string (string s) ≡ s
  pub array_is_array : (xs : List J) → json.is_array (array xs) ≡ true
  pub array_elements : (xs : List J) → json.elements (array xs) ≡ xs
  pub object_is_object : (m : List (Bytes × J)) → json.is_object (object m) ≡ true
  pub object_contains :
      (m : List (Bytes × J)) (key : Bytes) → json.contains (object m) key ≡ is_some (find_key m key)
  pub object_at :
      (m : List (Bytes × J)) (key : Bytes) (v : J)
      → find_key m key ≡ some v
      → json.at (object m) key ≡ v
  pub object_empty :
      (k : Bytes) (v : J) (m : List (Bytes × J)) → json.empty (object ((k, v) ∷ m)) ≡ false
  pub object_values :
      (P : J → Type 0) (m : List (Bytes × J)) → All (λ e. P e.1) m → All P (json.values (object m))
