-- ===== src/Storage/Columns.antt =====
-- internal/adapters/storage/pgxrepo/lab_mapping.go and pool_mapping.go: the values of nullable columns,
-- and JSON as far as the columns hold it.
use cloud_lab_gateway.Common.{
  ℕ, ◌≡◌, refl, Bool, true, false, Option, none, some, List, [], ◌∷◌, ◌++◌, map, String, str_eq,
  eq_iff, if◌then◌else◌, arith,
}
use cloud_lab_gateway.Common.Int.{negsuc, ltb_ℤ}
use cloud_lab_gateway.Shared.{Time, Err}
use cloud_lab_gateway.Ports.{Answer, gives, fails}
use cloud_lab_gateway.Lab.{KiResources, no_resources}

-- uuid.NullUUID
pub record NullUuid : Type 0 where
  pub uuid : ℕ
  pub valid : Bool

abbrev pub nullable_id : Option ℕ → NullUuid
nullable_id none = record { uuid = 0; valid = false }
nullable_id (some id) = record { uuid = id; valid = true }

abbrev pub id_from_null : NullUuid → Option ℕ
id_from_null n = if n.valid then some n.uuid else none

-- 1 January of the year 1, the zero of time.Time, before 1970
abbrev pub zero_time : Time
zero_time = negsuc 62135596799999999999

abbrev pub is_zero_time : Time → Bool
is_zero_time t = if ltb_ℤ t zero_time then false else if ltb_ℤ zero_time t then false else true

-- pgtype.Timestamptz
pub record Timestamptz : Type 0 where
  pub time : Time
  pub valid : Bool

abbrev pub null_time : Timestamptz
null_time = record { time = zero_time; valid = false }

abbrev pub timestamptz : Time → Timestamptz
timestamptz t = if is_zero_time t then null_time else record { time = t; valid = true }

abbrev pub time_from_timestamptz : Timestamptz → Time
time_from_timestamptz t = if t.valid then t.time else zero_time

abbrev pub timestamptz_ptr : Option Time → Timestamptz
timestamptz_ptr none = null_time
timestamptz_ptr (some t) = timestamptz t

abbrev pub time_ptr_from_timestamptz : Timestamptz → Option Time
time_ptr_from_timestamptz t = if t.valid then some t.time else none

abbrev pub nullable_string : String → Option String
nullable_string s = if str_eq s "" then none else some s

abbrev pub string_from_ptr : Option String → String
string_from_ptr none = ""
string_from_ptr (some s) = s

pub nullable_string_back : (s : String) → string_from_ptr (nullable_string s) ≡ s
nullable_string_back s = ground (arith, eq_iff s "")

-- A value of JSON. In an array `none` is a null; `other` is any value of another form.
pub data Value : Type 0 where
  null other : Value
  text : String → Value
  number : ℕ → Value
  texts : List (Option String) → Value

-- What a column of JSON holds, or a text that package json refuses.
pub data Json : Type 0 where
  no_bytes : Json
  malformed : Err → Json
  whole : Value → Json
  object : List (String × Value) → Json

abbrev texts_field : String → List String → List (String × Value)
texts_field name [] = []
texts_field name (s ∷ ss) = (name, Value.texts (map some (s ∷ ss))) ∷ []

abbrev text_field : String → String → List (String × Value)
text_field name s = if str_eq s "" then [] else (name, Value.text s) ∷ []

-- json.Marshal of a kiResourcesJSON, whose fields are left out when they are empty.
pub ki_resources_to_json : KiResources → Json
ki_resources_to_json r = Json.object (
    texts_field "server_ids" r.server_ids
    ++ text_field "network_id" r.network_id
    ++ texts_field "floating_ips" r.floating_ips
    ++ text_field "keypair_name" r.keypair_name)

abbrev type_error : Err
type_error = Err.external "json: cannot unmarshal value of another type"

-- A null inside an array of texts leaves the text empty, and one in place of a field leaves the field.
abbrev element : Option String → String
element none = ""
element (some s) = s

read_texts : List String → Value → Answer (List String)
read_texts old Value.null = gives []
read_texts old (Value.texts l) = gives (map element l)
read_texts old _ = fails type_error

read_text : String → Value → Answer String
read_text old Value.null = gives old
read_text old (Value.text s) = gives s
read_text old _ = fails type_error

abbrev set {ℓ} : {A : Type ℓ} → Answer A → (A → KiResources) → Answer KiResources
set (gives a) f = gives (f a)
set (fails e) f = fails e

-- A key that is no field is skipped.
set_field : KiResources → String → Value → Answer KiResources
unfolding read_texts read_text
set_field r name v =
    if str_eq name "server_ids"
    then set (read_texts r.server_ids v) (λ l. record r { server_ids = l })
    else if str_eq name "network_id"
    then set (read_text r.network_id v) (λ s. record r { network_id = s })
    else if str_eq name "floating_ips"
    then set (read_texts r.floating_ips v) (λ l. record r { floating_ips = l })
    else if str_eq name "keypair_name"
    then set (read_text r.keypair_name v) (λ s. record r { keypair_name = s })
    else gives r

abbrev after {ℓ} : {A : Type ℓ} → Answer A → (A → Answer A) → Answer A
after (gives a) f = f a
after (fails e) f = fails e

set_fields : KiResources → List (String × Value) → Answer KiResources
unfolding set_field
set_fields r [] = gives r
set_fields r ((name, v) ∷ fields) = after (set_field r name v) (λ q. set_fields q fields)

abbrev unmarshal_context : String
unmarshal_context = "pgxrepo: unmarshal lab ki resources"

abbrev wrapped : Answer KiResources → Answer KiResources
wrapped (gives r) = gives r
wrapped (fails e) = fails (Err.wrapped unmarshal_context e)

unfoldable pub ki_resources_from_json : Json → Answer KiResources
unfolding set_fields
ki_resources_from_json Json.no_bytes = gives no_resources
ki_resources_from_json (Json.malformed e) = fails (Err.wrapped unmarshal_context e)
ki_resources_from_json (Json.whole Value.null) = gives no_resources
ki_resources_from_json (Json.whole _) = fails (Err.wrapped unmarshal_context type_error)
ki_resources_from_json (Json.object fields) = wrapped (set_fields no_resources fields)

map-element : (l : List String) → map element (map some l) ≡ l
map-element [] = refl
map-element (s ∷ l) = ground (arith, map-element l)

fields_back :
    (ss fs : List String) (n k : String)
    → let r : KiResources = record {
      server_ids = ss;
      network_id = n;
      floating_ips = fs;
      keypair_name = k;
    } in
      ki_resources_from_json (ki_resources_to_json r) ≡ gives r
unfolding ki_resources_from_json ki_resources_to_json
fields_back [] [] n k = ground (arith, eq_iff n "", eq_iff k "")
fields_back [] (f ∷ fs) n k = ground (arith, eq_iff n "", eq_iff k "", map-element fs)
fields_back (s ∷ ss) [] n k = ground (arith, eq_iff n "", eq_iff k "", map-element ss)
fields_back (s ∷ ss) (f ∷ fs) n k =
    ground (arith, eq_iff n "", eq_iff k "", map-element ss, map-element fs)

-- The resources of a lab come back from the column as they were written.
pub ki_resources_from_json-to_json :
    (r : KiResources) → ki_resources_from_json (ki_resources_to_json r) ≡ gives r
ki_resources_from_json-to_json r =
    fields_back r.server_ids r.floating_ips r.network_id r.keypair_name
