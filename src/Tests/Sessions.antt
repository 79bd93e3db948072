-- ===== src/Tests/Sessions.antt =====
-- A session on the computing engine: fresh, and with three ids resident.
use qwarz.Base.{
  false, true, ℕ, ◌≡◌, ◌==◌, refl, ap, sym, subst, length, last_or, none, some, List, [], ◌∷◌,
  arith,
}
use qwarz.Base.Outcome.{raise, value_error}
use qwarz.Base.Ends.{Ends}
use qwarz.Cycle.Draft.{DraftCycle}
use qwarz.Cycle.Turn.{Turn}
use qwarz.Cycle.Resident.{Never}
use qwarz.Session.Marks.{Mark}
use qwarz.Session.{Session, Hardware, RewindSource, shared_prefix, rewind}
use qwarz.Session.Generate.{generate}
use qwarz.Session.Generate.Valid.{HardwareLaws, CycleAt, Valid, Standing, Rewound}
use qwarz.Session.Generate.Rewinds.{rewind-Rewound}
use qwarz.Session.Generate.Answers.{Completed, generate-greedy}
use qwarz.Session.Generate.Repeated.{generate-resident_prompt}
use qwarz.Session.Forwards.{turn}
use qwarz.Session.Forwards.Whole.{Turned, turn-Ends}
use qwarz.Tests.Machine.{cpu_engine, cpu_laws, cpu_target, next_token}

abbrev pub cpu_hardware : Hardware cpu_engine
cpu_hardware = record {
  has_states = λ t. true;
  rezero = none;
  reset = λ t. ([], []);
  reset_draft = none;
  capture_host = some (λ slot t. t);
  rows = λ table start end. table;
}

cpu_hardware_laws : HardwareLaws cpu_laws cpu_hardware
cpu_hardware_laws = record {
  consumed_reset = λ t. refl;
  consumed_rezero = λ rezero t has ready. absurd (cc);
  position_reset = λ reset d has. absurd (cc);
}

-- four tokens in windows of three drafts
abbrev pub short_turn : Turn cpu_engine (Unit {0})
short_turn = record {
  max_new = 4;
  steps = 3;
  limit = 6;
  stop_ids = 9 ∷ [];
  cuts = [];
  choose = none;
  on_accepted = none;
  on_span = none;
  cancel = none;
  embed_ids = none;
  inv_freq = none;
  ngram = false;
  ngram_n = 5;
}

abbrev pub cold : Session cpu_engine (Unit {0})
cold = record {
  context = 64;
  tape = [];
  cursor = 0;
  committed = 0;
  snapshot = none;
  busy = false;
  cycle = none;
  draft_mark = none;
  marks = [];
  spare_draft = none;
  rewind_source = RewindSource.from_zero;
  target = ([], []);
  rng = tt;
  host = tt;
  polls = 0;
}

cold-Valid : Valid cpu_laws cold
cold-Valid = record {
  cursor = refl;
  consumed = refl;
  committed = refl;
  snapshot = λ kept t has. absurd (cc);
  cycle = λ c has. absurd (cc);
  spare = λ d has. absurd (cc);
}

abbrev three_ids : List ℕ
three_ids = 0 ∷ 1 ∷ 2 ∷ []

-- a cycle whose draft has three rows
abbrev third : DraftCycle cpu_engine
third = record {
  draft = some 3;
  carry = some 3;
  primed = 0;
  accepted = 0;
  rejected = 0;
  windows = 0;
  proposals = none;
  tokens = [];
  cache_len = 3;
  overshot = false;
}

abbrev warm : Session cpu_engine (Unit {0})
warm = record cold {
  tape = three_ids;
  cursor = 3;
  committed = 3;
  snapshot = some (three_ids, 3 ∷ []);
  cycle = some third;
  target = (three_ids, 3 ∷ []);
}

warm-Valid : Valid cpu_laws warm
warm-Valid = record {
  cursor = refl;
  consumed = refl;
  committed = refl;
  snapshot = λ kept t has. let same : (three_ids, 3 ∷ []) ≡ kept = cc in ap (λ k. k.0) (sym same);
  cycle = λ c has.
      let same : third ≡ c = cc in
      subst (CycleAt cpu_laws 3) same
        (record { draft = 3; has_draft = refl; position = refl; carry = λ _. (3, refl) });
  spare = λ d has. absurd (cc);
}

-- a prompt that goes on where the tape ends
abbrev four_ids : List ℕ
four_ids = 0 ∷ 1 ∷ 2 ∷ 7 ∷ []

three_of_four : ¬ three_ids ≡ four_ids
three_of_four h = absurd (omega (arith, ap length h))

-- the same session with a mark behind two ids, and a prompt that leaves the tape there
abbrev second_mark : Mark cpu_engine
second_mark = record { snapshot = (0 ∷ 1 ∷ [], 2 ∷ []); carry = some 2 }

abbrev marked : Session cpu_engine (Unit {0})
marked = record warm { marks = (2, second_mark) ∷ [] }

marked-Valid : Valid cpu_laws marked
marked-Valid = record {
  cursor = refl;
  consumed = refl;
  committed = refl;
  snapshot = λ kept t has. let same : (three_ids, 3 ∷ []) ≡ kept = cc in ap (λ k. k.0) (sym same);
  cycle = λ c has. warm-Valid.cycle c has;
  spare = λ d has. absurd (cc);
}

abbrev other_ids : List ℕ
other_ids = 0 ∷ 1 ∷ 5 ∷ 7 ∷ []

three_of_other : ¬ three_ids ≡ other_ids
three_of_other h = absurd (omega (arith, ap length h))

generate-greedy_example :
    Completed cpu_hardware 2 short_turn cpu_laws next_token other_ids
      (generate cpu_hardware 2 short_turn other_ids marked)
generate-greedy_example =
    generate-greedy cpu_hardware 2 short_turn cpu_laws next_token other_ids cpu_hardware_laws refl
      refl refl (omega arith) (omega arith) cpu_target (omega arith) marked refl (omega arith)
      (omega arith) marked-Valid ((λ below. ((λ t same. refl), (2, refl))), tt) three_of_other

generate-resident_prompt_example :
    (generate cpu_hardware 2 short_turn three_ids warm).0
    ≡ raise (value_error "MTP prefill needs a held token after at least one token" [])
generate-resident_prompt_example =
    generate-resident_prompt cpu_hardware 2 short_turn cpu_laws three_ids third warm refl
      (omega arith) (omega arith) (omega arith) warm-Valid refl refl

-- four ids resident, of which three are committed
abbrev fourth : DraftCycle cpu_engine
fourth = record third { draft = some 4; carry = some 4; cache_len = 4 }

abbrev ahead : Session cpu_engine (Unit {0})
ahead = record marked {
  tape = 0 ∷ 1 ∷ 2 ∷ 3 ∷ [];
  cursor = 4;
  cycle = some fourth;
  target = (0 ∷ 1 ∷ 2 ∷ 3 ∷ [], 4 ∷ []);
}

ahead-Standing : Standing cpu_laws ahead
ahead-Standing = record {
  cursor = refl;
  consumed = refl;
  committed = omega arith;
  snapshot =
      λ kept t has same_ids. let same : (three_ids, 3 ∷ []) ≡ kept = cc in ap (λ k. k.0) (sym same);
  cycle = λ c has.
      let same : fourth ≡ c = cc in
      subst (CycleAt cpu_laws 4) same
        (record { draft = 4; has_draft = refl; position = refl; carry = λ _. (4, refl) });
  spare = λ d has. absurd (cc);
}

last_differs : ¬ ahead.tape ≡ four_ids
last_differs h = absurd (omega (arith, ap (last_or 0) h))

rewind-Rewound_example :
    Rewound cpu_laws four_ids (rewind cpu_hardware (shared_prefix ahead.tape four_ids) 3 ahead)
rewind-Rewound_example =
    rewind-Rewound cpu_laws cpu_hardware cpu_hardware_laws four_ids (omega arith) ahead
      ahead-Standing ((λ below. ((λ t same. refl), (2, refl))), tt) last_differs three_of_four

-- the way of the commit
by_commit :
    (rewind cpu_hardware (shared_prefix ahead.tape four_ids) 3 ahead).rewind_source
    ≡ RewindSource.from_commit
unfolding rewind shared_prefix
by_commit = refl

turn-Ends_example :
    Ends
      (Turned cpu_laws cpu_hardware cpu_hardware_laws four_ids (omega arith) (some (λ n. n == 1)))
      Never
      (turn cpu_hardware (some (λ n. n == 1)) none none four_ids)
      warm
turn-Ends_example =
    turn-Ends cpu_laws cpu_hardware cpu_hardware_laws four_ids (omega arith) (some (λ n. n == 1))
      warm refl warm-Valid
