-- ===== src/Postgres/Pending.antt =====
-- The outbox on a database, as the rows that are still to be published.
use chronos_dev.Common.{
  ℕ, String, Bool, true, not, List, [], ◌∷◌, ◌++◌, ◌==◌, ◌≡◌, refl, ap, ◌∙◌, sym, arith, Bool-cases,
  inl, inr, if◌then◌else◌, map, select, select-append, leb_ℤ, ok,
}
use chronos_dev.Domain.Job.{Instant}
use chronos_dev.Domain.Event.{Event}
use chronos_dev.Store.Outbox.{one_of}
use chronos_dev.Sql.Ordering.{IsPage, IsRank, page-IsPage}
use chronos_dev.Postgres.Journal.{
  Entry, is_unpublished, entry_of, insert_outbox, fetch_outbox_batch, publish,
  mark_outbox_published,
}

abbrev pub pending : List Entry → List Entry
pending = select is_unpublished

publish-pending :
    (now : Instant) (id : String) (es : List Entry)
    → pending (map (publish now id) es) ≡ select (λ e. not (e.row.id == id)) (pending es)
publish-pending now id [] = refl
publish-pending now id (e ∷ es) =
    let rest = publish-pending now id es in
    elim (Bool-cases (e.row.id == id)) [
      | inl h ↦ elim (Bool-cases (is_unpublished e)) [
        | inl u ↦ rw (h, u, h) rest
        | inr u ↦ rw (h, u) rest
      ]
      | inr h ↦ elim (Bool-cases (is_unpublished e)) [
        | inl u ↦ rw (h, u, h) (ap (◌∷◌ e) rest)
        | inr u ↦ rw (h, u) rest
      ]
    ]

drop_more :
    (id : String) (ids : List String) (es : List Entry)
    → select (λ e. not (one_of e.row.id ids)) (select (λ e. not (e.row.id == id)) es)
      ≡ select (λ e. not (one_of e.row.id (id ∷ ids))) es
unfolding one_of
drop_more id ids [] = refl
drop_more id ids (e ∷ es) = elim (Bool-cases (e.row.id == id)) [
  | inl h ↦ rw h (drop_more id ids es)
  | inr h ↦
      rw h (ap (λ rest. if not (one_of e.row.id ids) then e ∷ rest else rest) (drop_more id ids es))
]

mark-pending :
    (now : Instant) (ids : List String) (es : List Entry)
    → pending (mark_outbox_published now ids es)
      ≡ select (λ e. not (one_of e.row.id ids)) (pending es)
unfolding mark_outbox_published one_of
mark-pending now [] es = sym (select_all (pending es))
  where
    select_all : (xs : List Entry) → select (λ e. true) xs ≡ xs
    select_all [] = refl
    select_all (x ∷ xs) = ap (◌∷◌ x) (select_all xs)
mark-pending now (id ∷ ids) es =
    mark-pending now ids (map (publish now id) es)
    ∙ ap (select (λ e. not (one_of e.row.id ids))) (publish-pending now id es)
    ∙ drop_more id ids (pending es)

abbrev pub oldest_first : Entry → Entry → Bool
oldest_first a b = leb_ℤ a.row.created_at b.row.created_at

oldest_first-IsRank : IsRank oldest_first
oldest_first-IsRank = record { total = λ a b h. ground arith; trans = λ a b c h k. ground arith }

insert-pending :
    (json : Event → String) (event : Event) (es es' : List Entry)
    → insert_outbox json event es ≡ ok es'
    → pending es' ≡ pending es ++ (entry_of json event ∷ [])
unfolding insert_outbox entry_of
insert-pending json event es es' h =
    let e : es ++ (entry_of json event ∷ []) ≡ es' = ground (arith, h) in
    ap pending (sym e) ∙ select-append is_unpublished es (entry_of json event ∷ [])

-- The rows of the outbox that are not published behave as a line: a row that is inserted joins them, marking
-- identifiers as published takes away exactly the rows with these identifiers, and a batch is the beginning of
-- an ordering of them by the time of their creation, with all of them or as many as the limit.
pub pending-laws :
    (json : Event → String) (now : Instant) (ids : List String) (limit : ℕ) (es : List Entry)
    → ((event : Event) (es' : List Entry)
        → insert_outbox json event es ≡ ok es'
        → pending es' ≡ pending es ++ (entry_of json event ∷ []))
      × (pending (mark_outbox_published now ids es)
          ≡ select (λ e. not (one_of e.row.id ids)) (pending es))
      × IsPage oldest_first limit (pending es) (fetch_outbox_batch limit es)
unfolding fetch_outbox_batch
pending-laws json now ids limit es = (
  λ event es' h. insert-pending json event es es' h,
  mark-pending now ids es,
  page-IsPage oldest_first is_unpublished limit es oldest_first-IsRank,
)
