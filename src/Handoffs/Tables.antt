-- ===== src/Handoffs/Tables.antt =====
-- The handoffs of `SQLiteMetadataStore` in memory/backend/metadata_store.py: `create_handoff`,
-- `get_handoff`, `search_handoffs` and `supersede_handoff`.
use ai_memory_hub.Base.{
  Text, text_eq, ℤ, Bool, true, false, ◌&&◌, ◌||◌, not, Option, none, some, option_eq, List, [],
  ◌∷◌, ◌++◌, any, is_empty, take, ◌==◌, if◌then◌else◌, Result, ok, raise, value_error,
  integrity_error, ◌>>=◌, find, keep, map_option, text_ltb, sort_by, strip,
}
use ai_memory_hub.TokenStore.Validate.{validate_owner_id, validate_project_id}
use ai_memory_hub.Handoffs.Records.{
  Outside, Draft, Packet, validate_handoff_id, validate_handoff_limit, prepare_handoff_record,
  public_handoff_record, superseded,
}

-- A row of `handoffs`; the JSON of the payload is kept as the packet.
pub record Handoff (Content : Type 0) : Type 0 where
  pub id : Text
  pub owner_id : Option Text
  pub project_id : Text
  pub status : Text
  pub payload : Packet Content
  pub updated_at : Text

-- A row of `handoff_supersessions`.
pub record Supersession : Type 0 where
  pub previous_handoff_id : Text
  pub replacement_handoff_id : Text

pub record HandoffStore (Content : Type 0) : Type 0 where
  pub handoffs : List (Handoff Content)
  pub supersessions : List Supersession

abbrev pub validate_owner : Option Text → Result (Option Text)
validate_owner none = ok none
validate_owner (some owner) = validate_owner_id owner >>= λ id. ok (some id)

module _ {Content : Type 0} (o : Outside Content) where
  abbrev pub has_handoff : Text → HandoffStore Content → Bool
  has_handoff id s = any (λ h. h.id == id) s.handoffs

  abbrev pub row_of : Packet Content → Handoff Content
  row_of p = record {
    id = p.handoff_id;
    owner_id = p.owner_id;
    project_id = p.project_id;
    status = p.status;
    payload = p;
    updated_at = o.updated_at p.content;
  }

  -- INSERT INTO handoffs, with `id` the primary key; the error is what the caller makes of it.
  unfoldable pub insert_handoff :
      Packet Content → HandoffStore Content → Result (HandoffStore Content)
  insert_handoff p s =
      if has_handoff p.handoff_id s
      then raise integrity_error
      else ok (record s { handoffs = s.handoffs ++ row_of p ∷ [] })

  -- INSERT INTO handoff_supersessions, with `previous_handoff_id` the primary key and
  -- `replacement_handoff_id` unique.
  unfoldable pub insert_supersession :
      Text → Text → HandoffStore Content → Result (HandoffStore Content)
  insert_supersession previous replacement s =
      if any (λ r. r.previous_handoff_id == previous) s.supersessions
        || any (λ r. r.replacement_handoff_id == replacement) s.supersessions
      then raise integrity_error
      else ok (record s {
        supersessions =
            s.supersessions
            ++ record { previous_handoff_id = previous; replacement_handoff_id = replacement } ∷ [];
      })

  -- `except sqlite3.IntegrityError`
  abbrev pub rename_error : {A : Type 0} → Result A → Result A
  rename_error (raise integrity_error) = raise (value_error "handoff_id already exists")
  rename_error r = r

  unfoldable pub create_handoff :
      Draft Content
      → Option Text
      → Text
      → Option Text
      → HandoffStore Content
      → Result (Packet Content × HandoffStore Content)
  unfolding prepare_handoff_record insert_handoff validate_project_id
  create_handoff d owner_id project_id supersedes s = do
    project ← validate_project_id project_id
    owner ← validate_owner owner_id
    p ← prepare_handoff_record o d owner project supersedes
    s' ← rename_error (insert_handoff p s)
    ok (p, s')

  -- The LEFT JOIN.
  unfoldable pub replacement_of : Text → HandoffStore Content → Option Text
  replacement_of id s =
      map_option (λ r. r.replacement_handoff_id)
        (find (λ r. r.previous_handoff_id == id) s.supersessions)

  abbrev pub shown :
      Option (Handoff Content) → HandoffStore Content → Result (Option (Packet Content))
  shown none s = ok none
  shown (some h) s = public_handoff_record o h.payload (replacement_of h.id s) >>= λ p. ok (some p)

  unfoldable pub get_handoff : Text → Text → HandoffStore Content → Result (Option (Packet Content))
  unfolding validate_handoff_id validate_project_id replacement_of public_handoff_record
  get_handoff handoff_id project_id s = do
    id ← validate_handoff_id handoff_id
    project ← validate_project_id project_id
    shown (find (λ h. h.id == id && h.project_id == project) s.handoffs) s

  -- The writes of `supersede_handoff`, in one transaction.
  unfoldable pub write_replacement :
      Text → Packet Content → HandoffStore Content → Result (HandoffStore Content)
  unfolding insert_handoff insert_supersession
  write_replacement previous p s = do
    s' ← insert_handoff p s
    insert_supersession previous p.handoff_id s'

  -- `existing is None or existing.get("superseded_by_handoff_id") is not None`
  abbrev pub is_current : Option (Packet Content) → Bool
  is_current none = false
  is_current (some p) = p.superseded_by_handoff_id == none

  unfoldable pub supersede_handoff :
      Text
      → Draft Content
      → Option Text
      → Text
      → HandoffStore Content
      → Result (Option (Packet Content) × HandoffStore Content)
  unfolding get_handoff write_replacement prepare_handoff_record
  supersede_handoff handoff_id d owner_id project_id s = do
    previous ← validate_handoff_id handoff_id
    existing ← get_handoff previous project_id s
    if not (is_current existing) then ok (none, s) else do
      project ← validate_project_id project_id
      p ← prepare_handoff_record o d owner_id project (some previous)
      s' ← write_replacement previous p s
      ok (some p, s')

  -- ORDER BY updated_at DESC, id ASC
  abbrev pub newer_first : Handoff Content → Handoff Content → Bool
  newer_first a b =
      text_ltb b.updated_at a.updated_at || a.updated_at == b.updated_at && not (text_ltb b.id a.id)

  -- The clauses on the status and on supersession.
  abbrev pub wanted : Option Text → Bool → Option Text → Text → Bool
  wanted none include replacement status = include || replacement == none
  wanted (some asked) include replacement status =
      if asked == superseded
      then not (replacement == none)
      else status == asked && (include || replacement == none)

  abbrev pub all_shown :
      HandoffStore Content → List (Handoff Content) → Result (List (Packet Content))
  all_shown s [] = ok []
  all_shown s (h ∷ hs) = do
    p ← public_handoff_record o h.payload (replacement_of h.id s)
    ps ← all_shown s hs
    ok (p ∷ ps)

  -- The clause on the query, which is left out where there is none or it is empty.
  abbrev pub says : (Packet Content → Text → Bool) → Option Text → Packet Content → Bool
  says contains none p = true
  says contains (some q) p = is_empty q || contains p (strip q)

  -- `contains` says whether the JSON of a payload is LIKE the query.
  unfoldable pub matching_handoffs :
      (Packet Content → Text → Bool)
      → Text
      → Option Text
      → Option Text
      → Bool
      → HandoffStore Content
      → List (Handoff Content)
  unfolding replacement_of
  matching_handoffs contains project query status include s =
      keep
        (λ h.
          h.project_id == project
          && says contains query h.payload
          && wanted status include (replacement_of h.id s) h.status)
        s.handoffs

  unfoldable pub search_handoffs :
      (Packet Content → Text → Bool)
      → Text
      → Option Text
      → Option Text
      → Bool
      → ℤ
      → HandoffStore Content
      → Result (List (Packet Content))
  unfolding matching_handoffs sort_by validate_handoff_limit
  search_handoffs contains project_id query status include limit s = do
    project ← validate_project_id project_id
    most ← validate_handoff_limit limit
    all_shown s (
        take most (sort_by newer_first (matching_handoffs contains project query status include s)))
