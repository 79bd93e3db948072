-- ===== src/Tests/Parts.antt =====
-- The properties of the smaller parts at concrete inputs.
use qwarz.Base.{
  ℕ, ◌+◌, ◌-◌, ◌≤◌, ◌<◌, ◌≡◌, refl, none, some, List, [], ◌∷◌, length, map, arith, false,
}
use qwarz.Base.Int.{ℤ}
use qwarz.Base.Outcome.{ok}
use qwarz.Schedule.{Span, suffix_bounds}
use qwarz.Schedule.Cover.{Covers, suffix_bounds-Covers}
use qwarz.Mtp.{matching, emitted_tokens}
use qwarz.Vision.{mm_token_base, assemble_rows}
use qwarz.Vision.Rows.{row_of, assemble_rows-eq-map}
use qwarz.Cycle.Suffix
use qwarz.Cycle.Prefill.{split_spans}
use qwarz.Cycle.Prefill.Chain.{Chain, split_spans-Chain}
use qwarz.Cycle.Draft.{DraftCycle, propose, repair}
use qwarz.Cycle.Draft.Aligned.{draft_position, HasCarry, propose_lem, repair_lem}
use qwarz.Cycle.Window.{trim}
use qwarz.Cycle.Window.Trim.{IsGreedyCut, trim-IsGreedyCut}
use qwarz.Mtp.Greedy.{greedy, scores}
use qwarz.Tests.Machine.{cpu_engine, cpu_laws, next_token}

suffix_bounds-Covers_example :
    (spans : List Span) × (suffix_bounds 8192 256 (ℤ.pos 100) (ℤ.pos 20_000) ≡ ok spans)
    × (100 < 20_000 - 1 → Covers 8192 256 (20_000 - 1) 100 spans)
    × (20_000 - 1 ≤ 100 → spans ≡ [])
suffix_bounds-Covers_example = suffix_bounds-Covers 8192 256 100 20_000 (omega arith) (omega arith)

abbrev three_drafts : List ℕ
three_drafts = 3 ∷ 4 ∷ 9 ∷ []

-- the two matching drafts and the target's own third token
two_kept : emitted_tokens 6 three_drafts (3 ∷ 4 ∷ 5 ∷ 6 ∷ []) ≡ ok (3 ∷ 4 ∷ 5 ∷ [], 2)
unfolding emitted_tokens matching
two_kept = refl

assemble_rows-eq-map_example :
    assemble_rows (5 ∷ 6 ∷ 1_000_000_007 ∷ 8 ∷ []) (λ t. t) (λ t. t - mm_token_base)
    ≡ map (row_of (λ t. t) (λ t. t - mm_token_base)) (5 ∷ 6 ∷ 1_000_000_007 ∷ 8 ∷ [])
assemble_rows-eq-map_example =
    assemble_rows-eq-map (λ t. t) (λ t. t - mm_token_base) (5 ∷ 6 ∷ 1_000_000_007 ∷ 8 ∷ [])

split_spans-Chain_example :
    Chain 0 512 (split_spans ((0, 256) ∷ (256, 512) ∷ []) (300 ∷ 100 ∷ 256 ∷ []))
split_spans-Chain_example =
    split_spans-Chain 0 512 ((0, 256) ∷ (256, 512) ∷ []) (300 ∷ 100 ∷ 256 ∷ [])
      (refl, omega arith, (refl, omega arith, refl))

two_match : 2 ≡ matching three_drafts (scores next_token (0 ∷ 1 ∷ 2 ∷ []) three_drafts)
unfolding matching scores
two_match = refl

trim-IsGreedyCut_example :
    (k : ℕ) × IsGreedyCut next_token
      (0 ∷ 1 ∷ 2 ∷ [])
      three_drafts
      (4 ∷ [])
      2
      k
      (trim 2 (4 ∷ []) (greedy next_token [] 3 (0 ∷ 1 ∷ 2 ∷ [])) 2)
trim-IsGreedyCut_example =
    trim-IsGreedyCut next_token (0 ∷ 1 ∷ 2 ∷ []) three_drafts (4 ∷ []) 2 2 (omega arith) two_match

-- a cycle behind the propose of three drafts at 2
abbrev rolled : DraftCycle cpu_engine
rolled = record {
  draft = some 5;
  carry = some 2;
  primed = 2;
  accepted = 0;
  rejected = 0;
  windows = 0;
  proposals = none;
  tokens = [];
  cache_len = 0;
  overshot = false;
}

abbrev runner_state : List ℕ × List ℕ
runner_state = (0 ∷ 1 ∷ [], 2 ∷ [])

propose_lem_example :
    (drafted : List ℕ) × ((propose cpu_engine runner_state 2 3 none rolled).0 ≡ ok drafted)
    × (length drafted ≡ 3)
    × ((propose cpu_engine runner_state 2 3 none rolled).1.primed ≡ draft_position rolled)
    × (draft_position (propose cpu_engine runner_state 2 3 none rolled).1
        ≡ draft_position rolled + 3)
    × ((propose cpu_engine runner_state 2 3 none rolled).1.carry ≡ rolled.carry)
propose_lem_example = propose_lem cpu_laws runner_state 2 3 none rolled (2, refl)

repair_lem_example :
    ((repair cpu_engine runner_state (3 ∷ 4 ∷ 5 ∷ 6 ∷ []) three_drafts 2 rolled).0 ≡ ok tt)
    × (draft_position (repair cpu_engine runner_state (3 ∷ 4 ∷ 5 ∷ 6 ∷ []) three_drafts 2 rolled).1
        ≡ rolled.primed + 1 + 2)
    × HasCarry (repair cpu_engine runner_state (3 ∷ 4 ∷ 5 ∷ 6 ∷ []) three_drafts 2 rolled).1
repair_lem_example =
    repair_lem cpu_laws runner_state (3 ∷ 4 ∷ 5 ∷ 6 ∷ []) three_drafts 2 rolled (omega arith)
      (omega arith) (omega arith)

-- pairs that come again: behind 1, 2 stood 3, 4
abbrev history : Suffix.SuffixIndex
history = Suffix.extend (Suffix.init (1 ∷ 2 ∷ 3 ∷ 4 ∷ []) 2 100) (5 ∷ 1 ∷ [])

abbrev copy : List ℕ
copy = 3 ∷ 4 ∷ []
