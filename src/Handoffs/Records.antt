-- ===== src/Handoffs/Records.antt =====
-- memory/backend/handoff_records.py, with the checks of `StoredHandoffPacket` in
-- memory/handoff_models.py that the store depends on.
use ai_memory_hub.Base.{
  Text, text_eq, codes, ℕ, ◌||◌, not, Option, none, some, List, [], ◌∷◌, length, is_empty, any, ltb,
  ◌==◌, if◌then◌else◌, strip, Result, ok, raise, value_error, ◌>>=◌, ℤ, pos, below_one, at_least,
  to_ℕ, option_eq,
}

-- What stands outside: the redaction of secrets, and what Pydantic makes of the other fields of a
-- packet, none where it refuses them.
pub record Outside (Content : Type 0) : Type 0 where
  pub redact_secrets : Text → Text
  pub redact_content : Content → Content
  pub dump : Content → Option Content
  pub updated_at : Content → Text

-- `HandoffStatus`
abbrev pub handoff_statuses : List Text
handoff_statuses =
    codes "active"
    ∷ codes "blocked"
    ∷ codes "waiting_for_review"
    ∷ codes "complete"
    ∷ codes "superseded"
    ∷ []

abbrev pub superseded : Text
superseded = codes "superseded"

-- The argument of a call: what the caller gives as `handoff_id`, `status` and the other fields.
pub record Draft (Content : Type 0) : Type 0 where
  pub draft_id : Text
  pub draft_status : Option Text
  pub draft_content : Content

-- `StoredHandoffPacket`
pub record Packet (Content : Type 0) : Type 0 where
  pub handoff_id : Text
  pub owner_id : Option Text
  pub project_id : Text
  pub supersedes_handoff_id : Option Text
  pub superseded_by_handoff_id : Option Text
  pub status : Text
  pub content : Content

unfoldable pub validate_handoff_id : Text → Result Text
unfolding strip
validate_handoff_id value =
    if is_empty (strip value) || ltb 128 (length (strip value))
    then raise (value_error "handoff_id must contain 1 to 128 characters")
    else ok (strip value)

unfoldable pub validate_handoff_limit : ℤ → Result ℕ
validate_handoff_limit value =
    if below_one value || not (at_least (pos 100) value)
    then raise (value_error "limit must be between 1 and 100")
    else ok (to_ℕ value)

-- `str(payload.get("status") or "active")`
abbrev pub or_active : Option Text → Text
or_active none = codes "active"
or_active (some []) = codes "active"
or_active (some (c ∷ status)) = c ∷ status

abbrev redacted_status : (Text → Text) → Option Text → Option Text
redacted_status redact none = none
redacted_status redact (some status) = some (redact status)

module _ {Content : Type 0} (o : Outside Content) where
  abbrev pub with_content : Packet Content → Option Content → Result (Packet Content)
  with_content p none = raise (value_error "validation error for StoredHandoffPacket")
  with_content p (some content) = ok (record p { content = content })

  -- `StoredHandoffPacket.model_validate(…).model_dump(mode="json")`
  unfoldable pub validated : Packet Content → Result (Packet Content)
  validated p =
      if is_empty p.handoff_id || not (any (λ s. s == p.status) handoff_statuses)
      then raise (value_error "validation error for StoredHandoffPacket")
      else with_content p (o.dump p.content)

  abbrev pub draft_packet : Draft Content → Option Text → Text → Option Text → Packet Content
  draft_packet d owner project supersedes = record {
    handoff_id = o.redact_secrets d.draft_id;
    owner_id = owner;
    project_id = project;
    supersedes_handoff_id = supersedes;
    superseded_by_handoff_id = none;
    status = or_active (redacted_status o.redact_secrets d.draft_status);
    content = o.redact_content d.draft_content;
  }

  -- The check of `supersedes_handoff_id`.
  unfoldable pub check_supersedes : Option Text → Packet Content → Result (Packet Content)
  unfolding validate_handoff_id
  check_supersedes none p = ok p
  check_supersedes (some previous) p = do
    _ ← validate_handoff_id previous
    if previous == p.handoff_id
        then raise (value_error "a handoff cannot supersede itself")
        else ok p

  unfoldable pub prepare_handoff_record :
      Draft Content → Option Text → Text → Option Text → Result (Packet Content)
  unfolding validated check_supersedes
  prepare_handoff_record d owner project supersedes = do
    p ← validated (draft_packet d owner project supersedes)
    _ ← validate_handoff_id p.handoff_id
    check_supersedes supersedes p

  -- `record["superseded_by_handoff_id"] = …`
  abbrev pub marked : Packet Content → Option Text → Packet Content
  marked p none = record p { superseded_by_handoff_id = none }
  marked p (some replacement) = record p {
    superseded_by_handoff_id = some replacement;
    status = superseded;
  }

  unfoldable pub public_handoff_record : Packet Content → Option Text → Result (Packet Content)
  unfolding validated
  public_handoff_record p replacement = validated (marked p replacement)
