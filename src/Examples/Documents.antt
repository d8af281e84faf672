-- ===== src/Examples/Documents.antt =====
-- Documents that meet the laws of the interface `Json`, and a task that is written and read back.
use multi_constraint_iot_edg.Common.{
  ◌≡◌, refl, Bool, List, [], ◌∷◌, Option, none, some, Text, text_eq, if◌then◌else◌, ℤ, codes,
}
use multi_constraint_iot_edg.Double.Fixed.{Fixed, fixed_double}
use multi_constraint_iot_edg.Json.{Json, RealJson, IsJson}
use multi_constraint_iot_edg.Task.{Task}
use multi_constraint_iot_edg.Task.Documents.{decoded, from_json, to_json, from_json-to_json}
use multi_constraint_iot_edg.Examples.{plain_task}

mutual
  pub data Document : Type 0 where
    null : Document
    object : Fields → Document
    array : Elements → Document
    text : Text → Document
    real : Fixed → Document
    int : ℤ → Document
    bool : Bool → Document

  pub data Fields : Type 0 where
    no_fields : Fields
    field : Text → Document → Fields → Fields

  pub data Elements : Type 0 where
    no_elements : Elements
    element : Document → Elements → Elements

abbrev find : Text → Fields → Option Document
find key no_fields = none
find key (field k v entries) = let rest = find key entries in if text_eq k key then some v else rest

abbrev elements : List Document → Elements
elements [] = no_elements
elements (v ∷ vs) = element v (elements vs)

abbrev assign : Text → Document → Document → Document
assign k v (object entries) = object (field k v entries)
assign k v _ = object (field k v no_fields)

abbrev look_up : Text → Document → Option Document
look_up k (object entries) = find k entries
look_up k _ = none

abbrev as_text : Document → Option Text
as_text (text t) = some t
as_text _ = none

abbrev as_real : Document → Option Fixed
as_real (real x) = some x
as_real _ = none

abbrev as_int : Document → Option ℤ
as_int (int i) = some i
as_int _ = none

instance abbrev pub document_json : Json Document
document_json = record {
  null = null;
  empty_object = object no_fields;
  array = λ vs. array (elements vs);
  of_text = text;
  of_int = int;
  of_bool = bool;
  set = assign;
  get = look_up;
  to_text = as_text;
  to_int = as_int;
}

instance abbrev pub document_reals : RealJson Fixed Document
document_reals = record { of_real = real; to_real = as_real }

abbrev TakesKeys : Document → Type 0
TakesKeys null = Unit
TakesKeys (object entries) = Unit
TakesKeys _ = ⊥

assign-TakesKeys : (k : Text) (v j : Document) → TakesKeys j → TakesKeys (assign k v j)
assign-TakesKeys k v null is = tt
assign-TakesKeys k v (object entries) is = tt
assign-TakesKeys k v (array vs) is = absurd is
assign-TakesKeys k v (text t) is = absurd is
assign-TakesKeys k v (real x) is = absurd is
assign-TakesKeys k v (int i) is = absurd is
assign-TakesKeys k v (bool b) is = absurd is

look_up-assign :
    (k l : Text) (v j : Document)
    → TakesKeys j
    → look_up l (assign k v j) ≡ (if text_eq k l then some v else look_up l j)
look_up-assign k l v null is = refl
look_up-assign k l v (object entries) is = refl
look_up-assign k l v (array vs) is = absurd is
look_up-assign k l v (text t) is = absurd is
look_up-assign k l v (real x) is = absurd is
look_up-assign k l v (int i) is = absurd is
look_up-assign k l v (bool b) is = absurd is

pub Document-IsJson : IsJson Fixed Document
Document-IsJson = record {
  IsObject = TakesKeys;
  null-IsObject = tt;
  set-IsObject = assign-TakesKeys;
  get-null = λ k. refl;
  get-set = look_up-assign;
  to_text-of_text = λ t. refl;
  to_real-of_real = λ x n. refl;
  to_int-of_int = λ i. refl;
}

abbrev pub described_task : Task Fixed Document
described_task = record {
  task_id = plain_task.task_id;
  device_id = plain_task.device_id;
  sensor_type = plain_task.sensor_type;
  requirements = plain_task.requirements;
  sensor_data = text (codes "clear");
  status = plain_task.status;
  assigned_edge_id = codes "E01";
  creation_time = 5;
  completion_time = 6;
}

from_json-to_json_example :
    from_json 9 (to_json described_task)
    ≡ decoded (record described_task { creation_time = 9; completion_time = 0 })
from_json-to_json_example = from_json-to_json Document-IsJson 9 described_task refl refl refl
