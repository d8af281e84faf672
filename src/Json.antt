-- ===== src/Json.antt =====
-- JSON documents, which nlohmann/json implements and no code of the repository: the operations that the
-- program uses are a parameter, and what that library documents of them stands in a record of laws.
use multi_constraint_iot_edg.Common.{
  sym, ◌≡◌, refl, Bool, List, [], ◌∷◌, Option, none, some, Text, text_eq, if◌then◌else◌, ℤ,
}
use multi_constraint_iot_edg.Double.{Double, IsNum}

pub record Json (J : Type 0) : Type 0 where
  -- `json value;`, `json::object()` and `json::array()` with its elements.
  pub null : J
  pub empty_object : J
  pub array : List J → J
  pub of_text : Text → J
  pub of_int : ℤ → J
  pub of_bool : Bool → J
  -- `document[key] = value`, where the document is null or an object.
  pub set : Text → J → J → J
  -- `find`, by which `at`, `contains` and `value` look for a key.
  pub get : Text → J → Option J
  -- `get<std::string>()` and the integers; `none` is an exception.
  pub to_text : J → Option Text
  pub to_int : J → Option ℤ

-- The numbers of a document that are of the type `double`.
pub record RealJson (W J : Type 0) : Type 0 where
  pub of_real : W → J
  pub to_real : J → Option W

-- A value under a key.
abbrev pub Field : Type 0 → Type 0
Field J = Text × J

module _ {J : Type 0} ⦃json : Json J⦄ where
  open json use {null, set}

  -- Assignments to the keys of a document, one after the other.
  unfoldable pub set_all : J → List (Field J) → J
  set_all document [] = document
  set_all document ((key, value) ∷ fields) = set_all (set key value document) fields

  -- The document that a function fills from `json value;`.
  unfoldable pub object : List (Field J) → J
  object fields = set_all null fields

  -- The last value that is assigned to a key.
  abbrev pub last_of : Text → Option J → List (Field J) → Option J
  last_of key found [] = found
  last_of key found ((k, value) ∷ fields) =
      last_of key (if text_eq k key then some value else found) fields

-- `IsObject` holds of the documents that take keys.
pub record IsJson (W J : Type 0) ⦃d : Double W⦄ ⦃json : Json J⦄ ⦃real : RealJson W J⦄ : Type 1 where
  pub IsObject : J → Type 0
  pub null-IsObject : IsObject json.null
  pub set-IsObject : (k : Text) (v j : J) → IsObject j → IsObject (json.set k v j)
  pub get-null : (k : Text) → json.get k json.null ≡ none
  pub get-set :
      (k l : Text) (v j : J)
      → IsObject j
      → json.get l (json.set k v j) ≡ (if text_eq k l then some v else json.get l j)
  pub to_text-of_text : (t : Text) → json.to_text (json.of_text t) ≡ some t
  pub to_real-of_real : (x : W) → IsNum x → real.to_real (real.of_real x) ≡ some x
  pub to_int-of_int : (i : ℤ) → json.to_int (json.of_int i) ≡ some i

module _ {W J : Type 0} ⦃d : Double W⦄ ⦃json : Json J⦄ ⦃real : RealJson W J⦄
    (laws : IsJson W J) where
  get-set_all :
      (k : Text) (j : J) (fields : List (Field J))
      → laws.IsObject j
      → json.get k (set_all j fields) ≡ last_of k (json.get k j) fields
  unfolding set_all
  get-set_all k j [] is = refl
  get-set_all k j ((l, v) ∷ fields) is =
      rw (sym (laws.get-set l k v j is))
        (get-set_all k (json.set l v j) fields (laws.set-IsObject l v j is))

  -- A key of a document reads what was assigned to it last.
  pub get-object :
      (k : Text) (fields : List (Field J)) → json.get k (object fields) ≡ last_of k none fields
  unfolding object
  get-object k fields =
      rw (sym (laws.get-null k)) (get-set_all k json.null fields laws.null-IsObject)
