-- ===== src/Handoffs/History.antt =====
-- The tables of handoffs in memory/backend/metadata_store.py after any sequence of calls.
use ai_memory_hub.Base.{
  Text, text_eq, text_beq_refl, ◌≡◌, sym, ap, subst, ◌∙◌, some, option_eq, List, [], ◌∷◌, ◌++◌,
  ◌==◌, find, find-append, find-snoc, All, All-append, All-mono, UniqueBy-snoc, map_option,
  map_option-some,
}
use ai_memory_hub.Handoffs.Records.{Outside}
use ai_memory_hub.Handoffs.Tables.{Handoff, Supersession, HandoffStore, row_of, replacement_of}
use ai_memory_hub.Handoffs.Lineage.{
  Reach, here, next, IsLinked, Lineage, Added, one, replacement, Step-Added,
}

module _ {Content : Type 0} (o : Outside Content) where
  IsLinked-later :
      (rows more : List (Handoff Content)) (rs : List Supersession)
      → All (IsLinked o rows) rs
      → All (IsLinked o (rows ++ more)) rs
  IsLinked-later rows more rs h =
      All-mono (IsLinked o rows) (IsLinked o (rows ++ more)) rs
        (λ r (row, found, link). (row, find-append _ rows more found, link)) h

  Added-Lineage : (s t : HandoffStore Content) → Added o s t → Lineage o s → Lineage o t
  Added-Lineage s t (one p fresh same) inv = subst (Lineage o) (sym same) (record {
    ids = UniqueBy-snoc (λ h. h.id) s.handoffs (row_of o p) fresh inv.ids;
    replaced_once = inv.replaced_once;
    replaces_once = inv.replaces_once;
    linked = IsLinked-later s.handoffs (row_of o p ∷ []) s.supersessions inv.linked;
  })
  Added-Lineage s t (replacement previous p fresh link once single same) inv =
      subst (Lineage o) (sym same) (record {
        ids = UniqueBy-snoc (λ h. h.id) s.handoffs (row_of o p) fresh inv.ids;
        replaced_once =
            UniqueBy-snoc (λ r. r.previous_handoff_id) s.supersessions _ once inv.replaced_once;
        replaces_once =
            UniqueBy-snoc (λ r. r.replacement_handoff_id) s.supersessions _ single
              inv.replaces_once;
        linked =
            All-append _ s.supersessions _
              (IsLinked-later s.handoffs (row_of o p ∷ []) s.supersessions inv.linked)
              (
                (
                  row_of o p,
                  find-snoc (λ h. h.id == p.handoff_id) s.handoffs (row_of o p) fresh
                      (text_beq_refl p.handoff_id),
                  link,
                ),
                tt,
              );
      })

  Added-replaced :
      (id r : Text) (s t : HandoffStore Content)
      → Added o s t
      → replacement_of o id s ≡ some r
      → replacement_of o id t ≡ some r
  unfolding replacement_of
  Added-replaced id r s t (one p fresh same) h = ap (replacement_of o id) same ∙ h
  Added-replaced id r s t (replacement previous p fresh link once single same) h =
      let (row, found, e) =
        map_option-some _ (find (λ x. x.previous_handoff_id == id) s.supersessions) h in
      ap (replacement_of o id) same
      ∙ ap (map_option (λ x. x.replacement_handoff_id)) (find-append _ s.supersessions _ found)
      ∙ ap some e

-- Through creations and replacements of any callers, in any order and with the reads of a
-- replacement at any time before its write: handoff ids stay distinct, a handoff is replaced at most
-- once and replaces at most one other, and each replacement is stored and names what it replaces.
pub Reach-Lineage :
    {Content : Type 0} (o : Outside Content) {s t : HandoffStore Content}
    → Reach o s t
    → Lineage o s
    → Lineage o t
Reach-Lineage o here inv = inv
Reach-Lineage o (next {t} {u} r step) inv =
    Added-Lineage o t u (Step-Added o t u step) (Reach-Lineage o r inv)

pub Reach-replaced :
    {Content : Type 0} (o : Outside Content) (id r : Text) {s t : HandoffStore Content}
    → Reach o s t
    → replacement_of o id s ≡ some r
    → replacement_of o id t ≡ some r
Reach-replaced o id r here h = h
Reach-replaced o id r (next {t} {u} run step) h =
    Added-replaced o id r t u (Step-Added o t u step) (Reach-replaced o id r run h)
