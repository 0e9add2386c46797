-- ===== src/Handoffs/Examples.antt =====
-- Runs of the handoff tables, and the properties at concrete stores.
use ai_memory_hub.Base.{
  Text, text_eq, text_beq, codes, pos, ◌≡◌, refl, true, false, Option, none, some, [], ◌∷◌, ok,
  strip, find, text_ltb,
}
use ai_memory_hub.TokenStore.Validate.{validate_project_id, validate_owner_id}
use ai_memory_hub.Handoffs.Records.{
  Outside, Packet, Draft, prepare_handoff_record, public_handoff_record,
}
use ai_memory_hub.Handoffs.Tables.{
  HandoffStore, row_of, create_handoff, supersede_handoff, get_handoff, replacement_of,
  write_replacement, search_handoffs,
}
use ai_memory_hub.Handoffs.Lineage.{Reach, here, next, create, replace, Lineage}
use ai_memory_hub.Handoffs.History.{Reach-Lineage}
use ai_memory_hub.Handoffs.Lookup.{superseded_final, create_then_get}

-- A packet whose other fields are a text, which is also its time, with nothing to redact.
abbrev plain : Outside Text
plain = record {
  redact_secrets = λ t. t;
  redact_content = λ t. t;
  dump = some;
  updated_at = λ t. t;
}

abbrev empty_store : HandoffStore Text
empty_store = record { handoffs = []; supersessions = [] }

abbrev draft : Text → Draft Text
draft id = record { draft_id = id; draft_status = none; draft_content = codes "2026-01-01" }

abbrev packet : Text → Option Text → Packet Text
packet id supersedes = record {
  handoff_id = id;
  owner_id = some (codes "ann");
  project_id = codes "p";
  supersedes_handoff_id = supersedes;
  superseded_by_handoff_id = none;
  status = codes "active";
  content = codes "2026-01-01";
}

abbrev first_store : HandoffStore Text
first_store = record { handoffs = row_of plain (packet (codes "a") none) ∷ []; supersessions = [] }

abbrev second_store : HandoffStore Text
second_store = record {
  handoffs =
      row_of plain (packet (codes "a") none)
      ∷ row_of plain (packet (codes "b") (some (codes "a")))
      ∷ [];
  supersessions =
      record { previous_handoff_id = codes "a"; replacement_handoff_id = codes "b" } ∷ [];
}

created :
    create_handoff plain (draft (codes "a")) (some (codes "ann")) (codes "p") none empty_store
    ≡ ok (packet (codes "a") none, first_store)
unfolding create_handoff text_beq validate_owner_id
created = refl

superseded_once :
    supersede_handoff plain
      (codes "a")
      (draft (codes "b"))
      (some (codes "ann"))
      (codes "p")
      first_store
    ≡ ok (some (packet (codes "b") (some (codes "a"))), second_store)
unfolding supersede_handoff text_beq find
superseded_once = refl

superseded_twice :
    supersede_handoff plain
      (codes "a")
      (draft (codes "c"))
      (some (codes "ann"))
      (codes "p")
      second_store
    ≡ ok (none, second_store)
unfolding supersede_handoff text_beq find
superseded_twice = refl

prepared :
    prepare_handoff_record plain
      (draft (codes "b"))
      (some (codes "ann"))
      (codes "p")
      (some (codes "a"))
    ≡ ok (packet (codes "b") (some (codes "a")))
unfolding prepare_handoff_record text_beq
prepared = refl

written :
    write_replacement plain (codes "a") (packet (codes "b") (some (codes "a"))) first_store
    ≡ ok second_store
unfolding write_replacement text_beq
written = refl

abbrev run : Reach plain empty_store second_store
run =
    next
      (next here (
        create (draft (codes "a")) (some (codes "ann")) (codes "p") none (packet (codes "a") none)
          created))
      (replace (draft (codes "b")) (some (codes "ann")) (codes "p") (codes "a")
        (packet (codes "b") (some (codes "a"))) prepared written)

abbrev no_rows : Lineage plain empty_store
no_rows = record { ids = tt; replaced_once = tt; replaces_once = tt; linked = tt }

Reach-Lineage_example : Lineage plain second_store
Reach-Lineage_example = Reach-Lineage plain run no_rows

clean : strip (codes "a") ≡ codes "a"
unfolding strip
clean = refl

replaced : replacement_of plain (codes "a") second_store ≡ some (codes "b")
unfolding replacement_of text_beq find
replaced = refl

abbrev no_answer : Option (Packet Text)
no_answer = none

superseded_final_example :
    (replacement_of plain (codes "a") second_store ≡ some (codes "b"))
    × (no_answer ≡ none)
    × (second_store ≡ second_store)
superseded_final_example =
    superseded_final plain (codes "a") (codes "b") (draft (codes "c")) (some (codes "ann"))
      (codes "p") clean replaced here superseded_twice

unreplaced : replacement_of plain (codes "a") empty_store ≡ none
unfolding replacement_of find
unreplaced = refl

create_then_get_example :
    get_handoff plain (codes "a") (codes "p") first_store ≡ ok (some (packet (codes "a") none))
create_then_get_example =
    create_then_get plain (draft (codes "a")) (some (codes "ann")) (codes "p") none empty_store
      (λ c e _. refl) created clean unreplaced

found :
    search_handoffs plain (λ p q. true) (codes "p") none none false (pos 20) second_store
    ≡ ok (packet (codes "b") (some (codes "a")) ∷ [])
unfolding search_handoffs text_beq find text_ltb validate_project_id strip public_handoff_record
found = refl

-- The id of a stored handoff keeps the white space that every later lookup strips.
lost :
    get_handoff plain
      (codes " a")
      (codes "p")
      (record { handoffs = row_of plain (packet (codes " a") none) ∷ []; supersessions = [] })
    ≡ ok none
unfolding get_handoff text_beq find
lost = refl
