-- ===== src/Config/Kdl.antt =====
-- config/src/kdl.rs, over the interface of the crate `kdl`, which this repository does not hold.
use system76_scheduler.Base.{
  Bool, List, Option, String, [], if◌then◌else◌, ltb, map, nat_eq, none, some, string_eq, ℕ, ◌-◌,
  ◌^◌, ◌∷◌, ◌⊎◌,
}
use system76_scheduler.Base.Int.{negsuc, pos, ℤ}
use system76_scheduler.Config.Cfs.{F64}

-- Documents, nodes and entries are opaque; an entry's value is seen through its conversions.
pub record Kdl : Type 1 where
  pub Document : Type 0
  pub Node : Type 0
  pub Entry : Type 0
  -- `str::parse::<KdlDocument>`; the error carries the offset at which parsing stopped
  pub parse_document : String → ℕ ⊎ Document
  pub nodes : Document → List Node
  pub node_name : Node → String
  pub node_children : Node → Option Document
  pub entries : Node → List Entry
  -- `KdlNode::get`, by position and by key
  pub get_at : Node → ℕ → Option Entry
  pub get_key : Node → String → Option Entry
  pub entry_name : Entry → Option String
  pub entry_type : Entry → Option String
  -- `entry.value().as_bool()` and its kin
  pub as_bool : Entry → Option Bool
  pub as_string : Entry → Option String
  pub as_i64 : Entry → Option ℤ
  pub as_f64 : Entry → Option F64

-- `u16::try_from`, `u8::try_from` and `i8::try_from`, of an `i64`
unfoldable pub u16_try_from : ℤ → Option ℕ
u16_try_from (pos n) = if ltb n 65536 then some n else none
u16_try_from (negsuc n) = none

unfoldable pub u8_try_from : ℤ → Option ℕ
u8_try_from (pos n) = if ltb n 256 then some n else none
u8_try_from (negsuc n) = none

unfoldable pub i8_try_from : ℤ → Option ℤ
i8_try_from (pos n) = if ltb n 128 then some (pos n) else none
i8_try_from (negsuc n) = if ltb n 128 then some (negsuc n) else none

-- `value as u64`, of an `i64`
unfoldable pub as_u64 : ℤ → ℕ
as_u64 (pos n) = n
as_u64 (negsuc n) = 2 ^ 64 - 1 - n

module _ (k : Kdl) where
  open k use {Document, Node, Entry}

  -- `kdl::fields`
  unfoldable pub fields : Document → List (String × Node)
  fields document = map (λ node. (k.node_name node, node)) (k.nodes document)

  -- `NodeExt::enabled`
  unfoldable pub enabled : Node → Option Bool
  enabled node = elim (k.get_key node "enable") [ none ↦ none | some entry ↦ k.as_bool entry ]

  -- `NodeExt::get_bool`
  unfoldable pub get_bool : Node → ℕ → Option Bool
  get_bool node index = elim (k.get_at node index) [ none ↦ none | some entry ↦ k.as_bool entry ]

  -- `NodeExt::get_string`
  unfoldable pub get_string : Node → ℕ → Option String
  get_string node index = elim (k.get_at node index) [
    | none ↦ none
    | some entry ↦ k.as_string entry
  ]

  -- `NodeExt::get_u16`
  unfoldable pub get_u16 : Node → ℕ → Option ℕ
  get_u16 node index = elim (k.get_at node index) [
    | none ↦ none
    | some entry ↦ elim (k.as_i64 entry) [ none ↦ none | some raw ↦ u16_try_from raw ]
  ]

  named_entries : List Entry → List (String × Entry)
  named_entries [] = []
  named_entries (entry ∷ rest) =
      let more = named_entries rest in
      elim (k.entry_name entry) [ none ↦ more | some name ↦ (name, entry) ∷ more ]

  -- `kdl::iter_properties`
  unfoldable pub iter_properties : Node → List (String × Entry)
  unfolding named_entries
  iter_properties node = named_entries (k.entries node)

  -- `EntryExt::as_i8`
  unfoldable pub as_i8 : Entry → Option ℤ
  as_i8 entry = elim (k.as_i64 entry) [ none ↦ none | some raw ↦ i8_try_from raw ]

  -- `EntryExt::as_u8`
  unfoldable pub as_u8 : Entry → Option ℕ
  as_u8 entry = elim (k.as_i64 entry) [ none ↦ none | some raw ↦ u8_try_from raw ]

  -- `EntryExt::parse_to`
  unfoldable pub parse_to {ℓ} : {T : Type ℓ} → (String → Option T) → Entry → Option T
  parse_to from_str entry = elim (k.as_string entry) [ none ↦ none | some raw ↦ from_str raw ]
