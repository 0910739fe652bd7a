-- ===== src/SnapshotStore/Retrieval.antt =====
-- What was stored is found again, under its id and under its hash.
use apartment_finder.Prelude.{
  All-mono, ◌≡◌, refl, ◌≢◌, inl, inr, String, none, some, List, [], ◌∷◌, ◌++◌, if◌then◌else◌, ◌==◌,
  eq_iff, string_eq, arith, All, All-append, Bool-cases, Option-cases, ap, ◌∙◌, keep,
}
use mathlib.Core.Path.{subst}
use mathlib.Core.List.{append_assoc, append-nil}
use apartment_finder.Prelude.Dict.{get, get-put, get-put_self}
use apartment_finder.Prelude.Result.{ok}
use apartment_finder.SnapshotStore.Repository.{
  SnapshotCreateRequest, SnapshotRecord, SnapshotRepository, add, ids_for, by_hash, snapshots_of,
}
use apartment_finder.SnapshotStore.Service.{create_snapshot, get_snapshot, content_hash_for}

-- Every id on record under a hash leads to a snapshot with that hash.
abbrev pub IsListed : SnapshotRepository → String → String → Type 0
IsListed r h sid = (s : SnapshotRecord) × (get r.snapshots sid ≡ some s) × (s.content_hash ≡ h)

abbrev pub IsIndexed : SnapshotRepository → Type 0
IsIndexed r = (h : String) → All (IsListed r h) (ids_for r h)

create_snapshot_ok :
    (sha256_text : String → String) (fresh : String) (request : SnapshotCreateRequest)
    (r r' : SnapshotRepository) {s : SnapshotRecord}
    → create_snapshot sha256_text fresh request r ≡ ok (s, r')
    → (s.snapshot_id ≡ fresh)
      × (r' ≡ add s r)
      × (content_hash_for sha256_text request.content_hash request.raw_content ≡ ok s.content_hash)
      × (request.schema_version ≡ "v1")
unfolding create_snapshot
create_snapshot_ok sha256_text fresh request r r' e =
    ground (arith, eq_iff request.schema_version "v1")

-- A stored snapshot is what its id retrieves from then on, and no other snapshot changes.
pub get_snapshot-create_snapshot :
    (sha256_text : String → String) (fresh other : String) (request : SnapshotCreateRequest)
    (r r' : SnapshotRepository) {s : SnapshotRecord}
    → create_snapshot sha256_text fresh request r ≡ ok (s, r')
    → fresh ≢ other
    → (get_snapshot r' fresh ≡ ok s) × (get_snapshot r' other ≡ get_snapshot r other)
unfolding get_snapshot add
get_snapshot-create_snapshot sha256_text fresh other request r r' {s} e ne =
    let f = create_snapshot_ok sha256_text fresh request r r' e in
    ground (
      arith,
      f.0,
      f.1,
      get-put_self r.snapshots s.snapshot_id s,
      get-put r.snapshots s.snapshot_id other s,
      eq_iff s.snapshot_id other,
    )

snapshots_of-cons :
    (r : SnapshotRepository) (sid : String) (sids : List String) (found : List SnapshotRecord)
    → snapshots_of r (sid ∷ sids) ≡ some found
    → (t : SnapshotRecord) × (rest : List SnapshotRecord) × (get r.snapshots sid ≡ some t)
      × (snapshots_of r sids ≡ some rest)
      × (found ≡ t ∷ rest)
unfolding snapshots_of
snapshots_of-cons r sid sids found h = elim (Option-cases (get r.snapshots sid)) [
  | inl missing ↦ absurd (ground (arith, missing, h))
  | inr (t, e) ↦ elim (Option-cases (snapshots_of r sids)) [
    | inl missing ↦ absurd (ground (arith, missing, e, h))
    | inr (rest, others) ↦ (t, rest, e, others, ground (arith, e, others, h))
  ]
]

get_of_add :
    (r : SnapshotRepository) (s : SnapshotRecord) (sid : String) {t : SnapshotRecord}
    → get r.snapshots s.snapshot_id ≡ none
    → get r.snapshots sid ≡ some t
    → get (add s r).snapshots sid ≡ some t
unfolding add
get_of_add r s sid new e =
    ground (arith, get-put r.snapshots s.snapshot_id sid s, eq_iff s.snapshot_id sid)

-- A snapshot under a new id takes nothing from what old ids lead to.
snapshots_of-add :
    (r : SnapshotRepository) (s : SnapshotRecord) (sids more : List String)
    (found new_found : List SnapshotRecord)
    → get r.snapshots s.snapshot_id ≡ none
    → snapshots_of (add s r) more ≡ some new_found
    → snapshots_of r sids ≡ some found
    → snapshots_of (add s r) (sids ++ more) ≡ some (found ++ new_found)
unfolding snapshots_of
snapshots_of-add r s [] more found new_found new e h =
    let same : found ≡ [] = ground (arith, h) in rw same e
snapshots_of-add r s (sid ∷ sids) more found new_found new e h =
    let (t, rest, first, others, same) = snapshots_of-cons r sid sids found h in
    let held = get_of_add r s sid new first in
    let later = snapshots_of-add r s sids more rest new_found new e others in
    rw (same, held, later) refl

new_snapshot :
    (r : SnapshotRepository) (s : SnapshotRecord)
    → snapshots_of (add s r) (s.snapshot_id ∷ []) ≡ some (s ∷ [])
unfolding snapshots_of add
new_snapshot r s = ground (arith, get-put_self r.snapshots s.snapshot_id s)

IsListed-add :
    (r : SnapshotRepository) (s : SnapshotRecord) (h sid : String)
    → get r.snapshots s.snapshot_id ≡ none
    → IsListed r h sid
    → IsListed (add s r) h sid
unfolding add
IsListed-add r s h sid new (t, e, eh) =
    (t, ground (arith, get-put r.snapshots s.snapshot_id sid s, eq_iff s.snapshot_id sid), eh)

ids_for-add :
    (r : SnapshotRepository) (s : SnapshotRecord) (h : String)
    → ids_for (add s r) h ≡ (
        if s.content_hash == h then ids_for r s.content_hash ++ s.snapshot_id ∷ [] else ids_for r h)
unfolding ids_for add
ids_for-add r s h =
    ground
      (arith, get-put r.hashes s.content_hash h (ids_for r s.content_hash ++ s.snapshot_id ∷ []))

IsListed-new :
    (r : SnapshotRepository) (s : SnapshotRecord) → IsListed (add s r) s.content_hash s.snapshot_id
unfolding add
IsListed-new r s = (s, get-put_self r.snapshots s.snapshot_id s, refl)

-- Storing a snapshot under an id that is not in use keeps the index in order.
pub add-IsIndexed :
    (r : SnapshotRepository) (s : SnapshotRecord)
    → get r.snapshots s.snapshot_id ≡ none
    → IsIndexed r
    → IsIndexed (add s r)
add-IsIndexed r s new indexed h =
    let grown : (g : String) → All (IsListed (add s r) g) (ids_for r g) = λ g.
      All-mono (IsListed r g) (IsListed (add s r) g) (ids_for r g)
        (λ sid l. IsListed-add r s g sid new l) (indexed g) in
    elim (Bool-cases (s.content_hash == h)) [
      | inl same ↦
          rw (ids_for-add, same)
            (subst
              (λ g. All (IsListed (add s r) g) (ids_for r s.content_hash ++ s.snapshot_id ∷ []))
              ((eq_iff s.content_hash h).0 same)
              (All-append (IsListed (add s r) s.content_hash) (ids_for r s.content_hash)
                (s.snapshot_id ∷ []) (grown s.content_hash) (IsListed-new r s, tt)))
      | inr other ↦ rw (ids_for-add, other) (grown h)
    ]

-- Snapshots that are stored one after the other, each under an id that is not in use then.
unfoldable pub add_all : List SnapshotRecord → SnapshotRepository → SnapshotRepository
add_all [] r = r
add_all (s ∷ ss) r = add_all ss (add s r)

abbrev pub AreNew : List SnapshotRecord → SnapshotRepository → Type 0
AreNew [] r = Unit {0}
AreNew (s ∷ ss) r = (get r.snapshots s.snapshot_id ≡ none) × AreNew ss (add s r)

by_hash-add :
    (r : SnapshotRepository) (s : SnapshotRecord) (h : String) (found : List SnapshotRecord)
    → get r.snapshots s.snapshot_id ≡ none
    → by_hash r h ≡ some found
    → by_hash (add s r) h ≡ some (found ++ (if s.content_hash == h then s ∷ [] else []))
unfolding by_hash
by_hash-add r s h found new e = elim (Bool-cases (s.content_hash == h)) [
  | inl same ↦
      let is : s.content_hash ≡ h = (eq_iff s.content_hash h).0 same in
      let ids : ids_for (add s r) h ≡ ids_for r h ++ s.snapshot_id ∷ [] =
        ground (arith, ids_for-add r s h, same, is) in
      rw (same, ids)
        (snapshots_of-add r s (ids_for r h) (s.snapshot_id ∷ []) found (s ∷ []) new
          (new_snapshot r s) e)
  | inr other ↦
      let ids : ids_for (add s r) h ≡ ids_for r h ++ [] =
        rw (append-nil (ids_for r h)) (ground (arith, ids_for-add r s h, other)) in
      rw (other, ids)
        (snapshots_of-add r s (ids_for r h) [] found [] new (unfold snapshots_of in refl) e)
]

-- Where a look-up by hash raises no KeyError, then after any snapshots have been stored, each under an
-- id that was not in use, it finds what it found before and then, in the order in which they were
-- stored, all and only those of the new snapshots that have the hash.
pub by_hash_lem :
    (r : SnapshotRepository) (ss : List SnapshotRecord) (h : String) (found : List SnapshotRecord)
    → AreNew ss r
    → by_hash r h ≡ some found
    → by_hash (add_all ss r) h ≡ some (found ++ keep (λ s. s.content_hash == h) ss)
unfolding add_all keep
by_hash_lem r [] h found new e = rw (append-nil found) e
by_hash_lem r (s ∷ ss) h found (first, others) e =
    let one = by_hash-add r s h found first e in
    let all = by_hash_lem (add s r) ss h _ others one in
    elim (Bool-cases (s.content_hash == h)) [
      | inl same ↦
          let kept = keep (λ t. t.content_hash == h) ss in
          rw same ((rw same at all) ∙ ap some (append_assoc found (s ∷ []) kept))
      | inr other ↦ rw other (rw (other, append-nil found) at all)
    ]
