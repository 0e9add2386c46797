-- ===== src/Base/Fields.antt =====
-- The value that a Python mapping has under a key.
use mathlib.Core.Option.{Option, none, some}
use mathlib.Core.List.{[]}
use ai_memory_hub.Base.Strings.{Text, codes}

pub data Field : Type 0 where
  missing null : Field
  text_value : Text → Field

-- `str(mapping.get(key, ""))`
abbrev pub str_or_empty : Field → Text
str_or_empty missing = []
str_or_empty null = codes "None"
str_or_empty (text_value t) = t

-- `mapping.get(key)`
abbrev pub get_text : Field → Option Text
get_text missing = none
get_text null = none
get_text (text_value t) = some t
