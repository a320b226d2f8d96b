-- ===== src/Base/Dicts.antt =====
-- JSON values, as the code stores them in JSONB columns and reads them by `dict.get`.
use Prim.Native.Nat.{ℕ}
use Prim.Native.String.{String}
use mathlib.Core.Bool.{Bool}
use mathlib.Core.Option.{Option, none, some}
use text.Mathlib.Text.{◌==◌ as str_eq}
use vibeshkoder.Base.Tests.{if◌then◌else◌}

mutual
  pub data Json : Type 0 where
    null : Json
    flag : Bool → Json
    num : ℕ → Json
    str : String → Json
    arr : Items → Json
    obj : Fields → Json

  pub data Items : Type 0 where
    nil : Items
    item : Json → Items → Items

  pub data Fields : Type 0 where
    end : Fields
    field : String → Json → Fields → Fields

-- `{}`
abbrev pub empty_dict : Json
empty_dict = obj end

abbrev pub field_of : String → Fields → Option Json
field_of k end = none
field_of k (field j v fs) = if str_eq j k then some v else field_of k fs

-- `d.get(k)`, where a stored null and an absent key are both None
abbrev pub not_null : Option Json → Option Json
not_null (some null) = none
not_null o = o

abbrev pub get : String → Json → Option Json
get k (obj fs) = not_null (field_of k fs)
get k _ = none

-- `d.get(k)` before None is read as an absent key
abbrev pub get_raw : String → Json → Option Json
get_raw k (obj fs) = field_of k fs
get_raw k _ = none

-- `d or {}`
abbrev pub or_empty : Option Json → Json
or_empty none = empty_dict
or_empty (some null) = empty_dict
or_empty (some j) = j
