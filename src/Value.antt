-- ===== src/Value.antt =====
-- The Go values that `Marshal` is given and that `Unmarshal` builds, as reflect.Value shows them.
-- An integer is its bit pattern. A map is the sequence in which a `range` over it, or `MapKeys`,
-- yields its entries, which Go leaves open. A value is a finite tree: one that reaches itself through
-- a map or a pointer is none.
pub mod Compare
use Prim.Native.Char.{code}
use Prim.Native.String.{String}
use Prim.Native.Nat.{max}
use go_zfs.Base.{ℕ, suc, Bool, true, false, ◌&&◌, List, [], ◌∷◌, Bytes, ◌==◌}
use go_zfs.Consts.{IntKind}

mutual
  pub data Value : Type 0 where
    bool : Bool → Value
    integer : IntKind → ℕ → Value
    float64 : ℕ → Value
    string : Bytes → Value
    -- Slices and arrays by the kind of their elements; `nvlists` holds maps or structs. Of the
    -- others the length matters: those of interfaces, and those whose elements have no type code.
    integers : IntKind → List ℕ → Value
    bools : List Bool → Value
    strings : List Bytes → Value
    nvlists : Values → Value
    interface_slice other_slice : ℕ → Value
    -- A map with string keys, and the number of entries of one with other keys.
    mapping : Entries → Value
    other_map : ℕ → Value
    struct : Fields → Value
    -- Pointers and interface values.
    ptr interface : Value → Value
    nil_ptr nil_interface : Value
    -- A value of a kind that the package has no case for, and whether it is zero.
    other : Bool → Value

  pub data Values : Type 0 where
    no_values : Values
    value : Value → Values → Values

  pub data Entries : Type 0 where
    no_entries : Entries
    entry : Bytes → Value → Entries → Entries

  -- A field is its name, the content of its `nvlist` tag, and its value.
  pub data Fields : Type 0 where
    no_fields : Fields
    field : Bytes → Bytes → Value → Fields → Fields

-- The bytes of an ASCII text.
abbrev pub bytes : String → Bytes
bytes String.[] = []
bytes (String.◌∷◌ c s) = code c ∷ bytes s

unfoldable pub bytes_eq : Bytes → Bytes → Bool
bytes_eq [] [] = true
bytes_eq (a ∷ as') (b ∷ bs) = a == b && bytes_eq as' bs
bytes_eq _ _ = false

unfoldable pub values_length : Values → ℕ
values_length no_values = 0
values_length (value v vs) = suc (values_length vs)

-- How deep maps, structs, slices and pointers are nested.
unfoldable mutual
  pub depth : Value → ℕ
  depth (mapping es) = suc (entries_depth es)
  depth (struct fs) = suc (fields_depth fs)
  depth (nvlists vs) = suc (values_depth vs)
  depth (ptr v) = depth v
  depth (interface v) = depth v
  depth _ = 0

  pub values_depth : Values → ℕ
  values_depth no_values = 0
  values_depth (value v vs) = max (depth v) (values_depth vs)

  pub entries_depth : Entries → ℕ
  entries_depth no_entries = 0
  entries_depth (entry k v es) = max (depth v) (entries_depth es)

  pub fields_depth : Fields → ℕ
  fields_depth no_fields = 0
  fields_depth (field name tag v fs) = max (depth v) (fields_depth fs)
