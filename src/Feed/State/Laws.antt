-- ===== src/Feed/State/Laws.antt =====
-- The invariant of the feed, and what a change of the mode does.
use reachable_web_observator.Common.{
  ◌==◌, Bool-cases, nat_eq, string_eq, ℕ, ◌%◌, ◌≡◌, refl, sym, ◌∙◌, subst, inl, inr, true, false,
  Option, none, some, List, [], ◌∷◌, arith,
}
use reachable_web_observator.Api.Types.{ListResponse}
use reachable_web_observator.Feed.State.{
  State, Mode, Flight, Event, page_size, set_mode, alive, handle, fetch_effect, mode_eq, same_fetch,
  refetch_effect, offset_effect, commit, step, mount, run, resolve, reject, finish,
}

-- The request in flight asks for the page that the state names.
abbrev pub IsCurrent : Mode → ℕ → Option Flight → Type 0
IsCurrent mode offset none = ⊥
IsCurrent mode offset (some flight) = (flight.mode ≡ mode) × (flight.offset ≡ offset)

pub record IsValid (s : State) : Type 0 where
  pub current : IsCurrent s.mode s.offset s.live
  pub paged : s.offset % page_size ≡ 0

mode_eq_sound : (a b : Mode) → mode_eq a b ≡ true → a ≡ b
mode_eq_sound a b h = ground arith

mode_eq_refl : (a : Mode) → mode_eq a a ≡ true
mode_eq_refl a = ground arith

live-handle : (e : Event) (s : State) → (handle e s).live ≡ s.live
unfolding handle
live-handle e s = ground arith

paged-handle :
    (e : Event) (s : State) → s.offset % page_size ≡ 0 → (handle e s).offset % page_size ≡ 0
unfolding handle
paged-handle e s h = ground arith

IsCurrent-of_eq :
    {mode mode' : Mode} {offset offset' : ℕ} (live : Option Flight)
    → mode ≡ mode'
    → offset ≡ offset'
    → IsCurrent mode offset live
    → IsCurrent mode' offset' live
IsCurrent-of_eq none m o h = h
IsCurrent-of_eq (some flight) m o (hm, ho) = (hm ∙ m, ho ∙ o)

mode_of_same : (old s : State) → same_fetch old s ≡ true → old.mode ≡ s.mode
unfolding same_fetch
mode_of_same old s h = mode_eq_sound old.mode s.mode (ground arith)

offset_of_same : (old s : State) → same_fetch old s ≡ true → old.offset ≡ s.offset
unfolding same_fetch
offset_of_same old s h = ground arith

refetch_effect-IsValid :
    (old s : State)
    → IsCurrent old.mode old.offset s.live
    → s.offset % page_size ≡ 0
    → IsValid (refetch_effect old s)
unfolding refetch_effect fetch_effect
refetch_effect-IsValid old s c p = elim (Bool-cases (same_fetch old s)) [
  | inl same ↦ rw same (record {
    current = IsCurrent-of_eq s.live (mode_of_same old s same) (offset_of_same old s same) c;
    paged = p;
  })
  | inr changed ↦ rw changed (record { current = (refl, refl); paged = p })
]

offset_effect-IsValid : (old s : State) → IsValid s → IsValid (offset_effect old s)
unfolding offset_effect fetch_effect
offset_effect-IsValid old s v = elim (Bool-cases (mode_eq old.mode s.mode)) [
  | inl same ↦ rw same v
  | inr changed ↦ rw changed (elim (Bool-cases (s.offset == 0)) [
    | inl first ↦ rw first v
    | inr later ↦ rw later (record { current = (refl, refl); paged = refl })
  ])
]

-- Every event keeps the feed valid.
pub step-IsValid : (e : Event) (s : State) → IsValid s → IsValid (step e s)
unfolding step commit
step-IsValid e s v = offset_effect-IsValid s _ (
    refetch_effect-IsValid s (handle e s)
      (subst (IsCurrent s.mode s.offset) (sym (live-handle e s)) v.current)
      (paged-handle e s v.paged))

mount-IsValid : IsValid mount
unfolding mount fetch_effect
mount-IsValid = record { current = (refl, refl); paged = refl }

run-IsValid : (events : List Event) (s : State) → IsValid s → IsValid (run s events)
unfolding run
run-IsValid [] s v = v
run-IsValid (e ∷ events) s v = run-IsValid events (step e s) (step-IsValid e s v)

-- After any events the request in flight is the one for the mode and the offset of the feed, and
-- the offset is a multiple of the page size.
pub feed-IsValid : (events : List Event) → IsValid (run mount events)
feed-IsValid events = run-IsValid events mount mount-IsValid

commit_idle : (s : State) → commit s s ≡ s
unfolding commit refetch_effect offset_effect same_fetch
commit_idle s = ground (arith, mode_eq_refl s.mode)

-- The answer to a superseded request changes nothing.
feed_step_of_stale :
    (id : ℕ) (r : ListResponse) (s : State)
    → alive id s ≡ none
    → (step (resolve id r) s ≡ s) × (step (reject id) s ≡ s) × (step (finish id) s ≡ s)
unfolding step handle
feed_step_of_stale id r s gone = rw gone (commit_idle s, commit_idle s, commit_idle s)

offset-set_mode :
    (mode : Mode) (s : State) → mode_eq s.mode mode ≡ false → (step (set_mode mode) s).offset ≡ 0
unfolding step commit refetch_effect offset_effect same_fetch fetch_effect handle
offset-set_mode mode s changed = ground arith

flight-set_mode :
    (mode : Mode) (s : State) (flight : Flight)
    → mode_eq s.mode mode ≡ false
    → (step (set_mode mode) s).live ≡ some flight
    → (flight.offset ≡ 0) × (flight.mode ≡ mode)
unfolding step commit refetch_effect offset_effect same_fetch fetch_effect handle
flight-set_mode mode s flight changed h = ground arith

tiles-resolve :
    (t : State) (r : ListResponse) (flight : Flight)
    → t.live ≡ some flight
    → flight.offset ≡ 0
    → (handle (resolve flight.id r) t).tiles ≡ r.entries
unfolding handle alive
tiles-resolve t r flight h first = rw h (ground arith)

-- Another mode starts at the first page: the request in flight asks for that page of the new
-- mode, and its answer replaces the tiles of the old one.
step-set_mode :
    (mode : Mode) (s : State) (r : ListResponse) (flight : Flight)
    → mode_eq s.mode mode ≡ false
    → (step (set_mode mode) s).live ≡ some flight
    → ((step (set_mode mode) s).offset ≡ 0)
      × (flight.mode ≡ mode)
      × (flight.offset ≡ 0)
      × ((handle (resolve flight.id r) (step (set_mode mode) s)).tiles ≡ r.entries)
step-set_mode mode s r flight changed h =
    let f = flight-set_mode mode s flight changed h in
    (
      offset-set_mode mode s changed,
      f.1,
      f.0,
      tiles-resolve (step (set_mode mode) s) r flight h f.0,
    )
