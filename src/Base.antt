-- ===== src/Base.antt =====
-- The records that the components pass to one another: internal/userctx, internal/backend and
-- internal/audit.
use tool_mesh.Prelude.{
  ℕ, String, Bool, true, false, ◌&&◌, Option, List, [], ◌∷◌, ◌==◌, eqb, if◌then◌else◌, ◌≡◌, refl,
  arith, eq_iff, ap,
}

pub record UserContext : Type 0 where
  pub user_id : String
  pub company_id : String
  pub roles : List String
  pub plan : String
  pub authenticated : Bool
  pub caller_id : String
  pub caller_name : String
  pub caller_class : String
  pub grant_key : String

unfoldable pub grant_binding : UserContext → String
grant_binding uc = if uc.grant_key == "" then uc.caller_id else uc.grant_key

-- A JSON value of parameters and results. The modelled code looks into texts and builds text
-- blocks; any other value it only carries.
pub data Value : Type 0 where
  str : String → Value
  num : ℕ → Value
  -- {"type": "text", "text": …}
  text_block : String → Value
  other : ℕ → Value

pub value_eq : Value → Value → Bool
value_eq (str a) (str b) = a == b
value_eq (num a) (num b) = eqb a b
value_eq (text_block a) (text_block b) = a == b
value_eq (other a) (other b) = eqb a b
value_eq _ _ = false

-- map[string]any; `none` is the nil map.
abbrev pub Fields : Type 0
Fields = List (String × Value)

abbrev pub Params : Type 0
Params = Option Fields

pub record ToolResult : Type 0 where
  pub content : List Value
  pub is_error : Bool
  pub metadata : Params

pub record ToolDescriptor : Type 0 where
  pub name : String
  pub access : String

pub data Phase : Type 0 where
  pre post : Phase

pub data Target : Type 0 where
  params response_content : Target

-- What json.Marshal writes for a snapshot: null, a map of parameters, a list of content blocks, or
-- another value.
pub data Snapshot : Type 0 where
  null : Snapshot
  fields : Fields → Snapshot
  items : List Value → Snapshot
  scalar : ℕ → Snapshot

pub record PolicyModification : Type 0 where
  pub policy : String
  pub phase : Phase
  pub target : Target
  pub before : Snapshot
  pub after : Snapshot

pub data Status : Type 0 where
  success error denied : Status

pub record AuditEntry : Type 0 where
  pub user_id : String
  pub company_id : String
  pub caller_id : String
  pub caller_name : String
  pub caller_class : String
  pub tool : String
  pub tool_access : String
  pub backend : String
  pub params : Params
  pub status : Status
  pub metadata : List (String × String)
  pub modifications : List PolicyModification

fields_eq : Fields → Fields → Bool
fields_eq [] [] = true
fields_eq ((k, v) ∷ m) ((j, w) ∷ n) = k == j && value_eq v w && fields_eq m n
fields_eq _ _ = false

items_eq : List Value → List Value → Bool
items_eq [] [] = true
items_eq (v ∷ vs) (w ∷ ws) = value_eq v w && items_eq vs ws
items_eq _ _ = false

-- bytes.Equal on two snapshots. Maps are kept in key order, the order that json.Marshal writes.
unfoldable pub snapshot_eq : Snapshot → Snapshot → Bool
unfolding value_eq fields_eq items_eq
snapshot_eq null null = true
snapshot_eq (fields m) (fields n) = fields_eq m n
snapshot_eq (items vs) (items ws) = items_eq vs ws
snapshot_eq (scalar a) (scalar b) = eqb a b
snapshot_eq _ _ = false

value_eq_refl : (v : Value) → value_eq v v ≡ true
unfolding value_eq
value_eq_refl (str a) = ground (arith, eq_iff a a)
value_eq_refl (num a) = ground arith
value_eq_refl (text_block a) = ground (arith, eq_iff a a)
value_eq_refl (other a) = ground arith

fields_eq_refl : (m : Fields) → fields_eq m m ≡ true
unfolding fields_eq
fields_eq_refl [] = refl
fields_eq_refl ((k, v) ∷ m) = ground (arith, eq_iff k k, value_eq_refl v, fields_eq_refl m)

items_eq_refl : (vs : List Value) → items_eq vs vs ≡ true
unfolding items_eq
items_eq_refl [] = refl
items_eq_refl (v ∷ vs) = ground (arith, value_eq_refl v, items_eq_refl vs)

pub snapshot_eq_refl : (s : Snapshot) → snapshot_eq s s ≡ true
unfolding snapshot_eq
snapshot_eq_refl null = refl
snapshot_eq_refl (fields m) = fields_eq_refl m
snapshot_eq_refl (items vs) = items_eq_refl vs
snapshot_eq_refl (scalar a) = ground arith

value_eq_sound : (v w : Value) → value_eq v w ≡ true → v ≡ w
unfolding value_eq
value_eq_sound (str a) (str b) h = ap str ((eq_iff a b).0 h)
value_eq_sound (num a) (num b) h = ground arith
value_eq_sound (text_block a) (text_block b) h = ap text_block ((eq_iff a b).0 h)
value_eq_sound (other a) (other b) h = ground arith
value_eq_sound _ _ h = cc

fields_eq_sound : (m n : Fields) → fields_eq m n ≡ true → m ≡ n
unfolding fields_eq
fields_eq_sound [] [] h = refl
fields_eq_sound ((k, v) ∷ m) ((j, w) ∷ n) h =
    ground (arith, eq_iff k j, value_eq_sound v w, fields_eq_sound m n)
fields_eq_sound _ _ h = cc

items_eq_sound : (vs ws : List Value) → items_eq vs ws ≡ true → vs ≡ ws
unfolding items_eq
items_eq_sound [] [] h = refl
items_eq_sound (v ∷ vs) (w ∷ ws) h = ground (arith, value_eq_sound v w, items_eq_sound vs ws)
items_eq_sound _ _ h = cc

pub snapshot_eq_sound : (s t : Snapshot) → snapshot_eq s t ≡ true → s ≡ t
unfolding snapshot_eq
snapshot_eq_sound null null h = refl
snapshot_eq_sound (fields m) (fields n) h = ap fields (fields_eq_sound m n h)
snapshot_eq_sound (items vs) (items ws) h = ap items (items_eq_sound vs ws h)
snapshot_eq_sound (scalar a) (scalar b) h = ground arith
snapshot_eq_sound _ _ h = cc
