-- ===== src/Stats/Snapshot/Laws.antt =====
-- The highlights are the largest of their kind.
use reachable_web_observator.Common.{
  length, All, ◌+++◌, trim, nat_eq, string_eq, ℕ, suc, ◌≤◌, String, ◌≡◌, refl, subst, true, some,
  List, [], ◌∷◌, arith,
}
use reachable_web_observator.Js.Number.{Reader, max_safe}
use reachable_web_observator.Js.Ranking.{Locale, ranked, ranks_before}
use reachable_web_observator.Js.Ranking.Laws.{ranked-IsRanking, IsDescending}
use mathlib.Core.List.{Memᴰ}
use reachable_web_observator.Js.Sort.Laws.{All-of-sort_by, length-sort_by}
use reachable_web_observator.Js.Sort.Members.{mem-sort_by}
use reachable_web_observator.Api.Types.{Counts, Stats, DailyRollup}
use reachable_web_observator.Search.Filters.{seed}
use reachable_web_observator.Stats.Window.{network_hosts}
use reachable_web_observator.Stats.Links.{network_link}
use reachable_web_observator.Stats.Links.Laws.{only, seed-links}
use reachable_web_observator.Stats.Snapshot.{first_of, top_entry, highlights}

abbrev IsTop : ℕ → String × ℕ → Type 0
IsTop n entry = entry.1 ≤ n

first-IsTop :
    (rows : Counts) (entry : String × ℕ)
    → IsDescending (λ r. r.1) rows
    → first_of rows ≡ some entry
    → All (IsTop entry.1) rows
first-IsTop [] entry h e = tt
first-IsTop (row ∷ rows) entry h e =
    let same : row ≡ entry = cc in subst (λ x. All (IsTop x.1) (row ∷ rows)) same (omega arith, h.0)

top_entry-IsTop :
    (locale : Locale) (counts : Counts) (entry : String × ℕ)
    → top_entry locale counts ≡ some entry
    → All (IsTop entry.1) counts
unfolding top_entry ranked
top_entry-IsTop locale counts entry e =
    All-of-sort_by (ranks_before locale) (IsTop entry.1) counts
      (first-IsTop (ranked locale counts) entry (ranked-IsRanking locale counts).1 e)

first-mem :
    (P : String × ℕ → Type 0) (rows : Counts) (entry : String × ℕ)
    → All P rows
    → first_of rows ≡ some entry
    → P entry
first-mem P [] entry h e = cc
first-mem P (row ∷ rows) entry h e = let same : row ≡ entry = cc in subst P same h.0

top_entry-mem :
    (locale : Locale) (counts : Counts) (entry : String × ℕ)
    → top_entry locale counts ≡ some entry
    → Memᴰ entry counts
unfolding top_entry ranked
top_entry-mem locale counts entry e =
    first-mem (λ x. Memᴰ x counts) _ entry (mem-sort_by (ranks_before locale) counts) e

-- A window with a network has a largest one.
first_of-cons :
    (rows : Counts) (n : ℕ)
    → length rows ≡ suc n
    → (entry : String × ℕ) × (first_of rows ≡ some entry)
first_of-cons [] n h = absurd (omega (arith, h))
first_of-cons (row ∷ rows) n h = (row, refl)

top_entry-cons :
    (locale : Locale) (first : String × ℕ) (rest : Counts)
    → (entry : String × ℕ) × (top_entry locale (first ∷ rest) ≡ some entry)
unfolding top_entry ranked
top_entry-cons locale first rest =
    first_of-cons _ _ (length-sort_by (ranks_before locale) (first ∷ rest))

-- When the window has a network, the first highlight is one of the networks of the window, with
-- its number of hosts; no other has more, and for a window that is a safe integer the link of the
-- highlight opens the search page with that network alone, trimmed, in the window of the
-- statistics and grouped by host.
pub highlights-network :
    (locale : Locale) (number : ℕ → String) (reader : Reader) (s : Stats)
    (trends : List DailyRollup) (first : String × ℕ) (rest : Counts)
    → s.time_range_hours ≤ max_safe
    → network_hosts s ≡ first ∷ rest
    → (label : String) × (count : ℕ) × Memᴰ (label, count) (network_hosts s)
      × All (λ entry. entry.1 ≤ count) (network_hosts s)
      × (first_of (highlights locale number s trends)
          ≡ some (record {
            heading = "Largest observed network";
            value = label;
            note = number count +++ " distinct hosts";
            link = some (network_link s.time_range_hours label);
          }))
      × (seed reader (network_link s.time_range_hours label)
          ≡ record (only s.time_range_hours true) { network = trim label })
unfolding highlights
highlights-network locale number reader s trends first rest h hosts =
    let ((label, count), top) = top_entry-cons locale first rest in
    let e : top_entry locale (network_hosts s) ≡ some (label, count) = rw hosts top in
    (
      label,
      count,
      top_entry-mem locale (network_hosts s) (label, count) e,
      top_entry-IsTop locale (network_hosts s) (label, count) e,
      rw e refl,
      (seed-links reader s.time_range_hours label h).2,
    )
