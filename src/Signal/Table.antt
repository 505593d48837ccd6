-- ===== src/Signal/Table.antt =====
-- sigar_signal.c: the names of signals are found, whatever case of the switch they stand in.
use re_co_mon_b.Base.{
  ℕ, ◌≡◌, refl, sym, ap, ◌∙◌, Bool, true, false, not, ◌&&◌, ◌||◌, List, [], ◌∷◌, ◌++◌, Option, none,
  Bytes, arith, ◌==◌, str_eq, str_eq_iff, Bool-cases, Option-cases, inl, inr, all_of,
}
use re_co_mon_b.Signal.{Defined, Case, cases, try_names, switch, first, strip, signum_get}

-- All names of the switch, in order.
abbrev pub all_names : List Case → List Bytes
all_names [] = []
all_names (k ∷ ks) = k.names ++ all_names ks

-- Whether a name is in a list.
abbrev pub is_listed : Bytes → List Bytes → Bool
is_listed name [] = false
is_listed name (own ∷ names) = str_eq name own || is_listed name names

abbrev begin_with : ℕ → List Bytes → Bool
begin_with c names = all_of (λ own. c == first own) names

abbrev are_sorted : List Case → Bool
are_sorted ks = all_of (λ k. begin_with k.label k.names) ks

-- A label that begins no other case's names.
abbrev is_apart : Case → List Case → Bool
is_apart k ks = all_of (λ j. not (k.label == j.label)) ks

abbrev are_apart : List Case → Bool
are_apart [] = true
are_apart (k ∷ ks) = is_apart k ks && are_apart ks

abbrev pub number_of : Defined → Bytes → Bool → Option ℕ
number_of defined name true = defined name
number_of defined name false = none

number_of-none :
    (defined : Defined) (name : Bytes) (b : Bool)
    → defined name ≡ none
    → number_of defined name b ≡ none
number_of-none defined name true e = e
number_of-none defined name false e = refl

try_names-number :
    (defined : Defined) (name : Bytes) (names : List Bytes)
    → try_names defined name names ≡ number_of defined name (is_listed name names)
unfolding try_names
try_names-number defined name [] = refl
try_names-number defined name (own ∷ names) =
    let rest = try_names-number defined name names in
    elim (Bool-cases (str_eq name own)) [
      | inl same ↦
          let e = (str_eq_iff name own).0 same in
          elim (Option-cases (defined name)) [
            | inr (n, d) ↦ rw (ap defined (sym e) ∙ d, same, d)
            | inl d ↦
                rw (same, ap defined (sym e) ∙ d) (rest ∙ number_of-none defined name _ d ∙ sym d)
          ]
      | inr other ↦ elim (Option-cases (defined own)) [
        | inr (n, d) ↦ rw (d, other) rest
        | inl d ↦ rw (d, other) rest
      ]
    ]

is_listed-append :
    (name : Bytes) (names more : List Bytes)
    → is_listed name (names ++ more) ≡ (is_listed name names || is_listed name more)
is_listed-append name [] more = refl
is_listed-append name (own ∷ names) more = elim (Bool-cases (str_eq name own)) [
  | inl same ↦ rw same
  | inr other ↦ rw other (is_listed-append name names more)
]

-- A name is not among those that begin with another letter.
is_listed-begin_with :
    (c : ℕ) (name : Bytes) (names : List Bytes)
    → begin_with c names ≡ true
    → (first name == c) ≡ false
    → is_listed name names ≡ false
is_listed-begin_with c name [] begin h = refl
is_listed-begin_with c name (own ∷ names) begin h = elim (Bool-cases (str_eq name own)) [
  | inl same ↦ let e = ap first ((str_eq_iff name own).0 same) in ground (arith, begin, h, e)
  | inr other ↦ rw other (is_listed-begin_with c name names (ground (arith, begin)) h)
]

is_listed-apart :
    (k : Case) (name : Bytes) (ks : List Case)
    → are_sorted ks ≡ true
    → is_apart k ks ≡ true
    → (first name == k.label) ≡ true
    → is_listed name (all_names ks) ≡ false
is_listed-apart k name [] sorted apart h = refl
is_listed-apart k name (j ∷ ks) sorted apart h =
    let here =
      is_listed-begin_with j.label name j.names (ground (arith, sorted))
        (ground (arith, apart, h)) in
    let rest = is_listed-apart k name ks (ground (arith, sorted)) (ground (arith, apart)) h in
    is_listed-append name j.names (all_names ks) ∙ rw (here, rest)

or-false : (b : Bool) → (b || false) ≡ b
or-false true = refl
or-false false = refl

switch-number :
    (defined : Defined) (name : Bytes) (ks : List Case)
    → are_sorted ks ≡ true
    → are_apart ks ≡ true
    → switch defined (first name) name ks ≡ number_of defined name (is_listed name (all_names ks))
unfolding switch
switch-number defined name [] sorted apart = refl
switch-number defined name (k ∷ ks) sorted apart =
    let split = is_listed-append name k.names (all_names ks) in
    elim (Bool-cases (first name == k.label)) [
      | inl same ↦
          let rest =
            is_listed-apart k name ks (ground (arith, sorted)) (ground (arith, apart)) same in
          rw (same, split, rest)
            (try_names-number defined name k.names
              ∙ ap (number_of defined name) (sym (or-false (is_listed name k.names))))
      | inr other ↦
          let here = is_listed-begin_with k.label name k.names (ground (arith, sorted)) other in
          rw (other, split, here)
            (switch-number defined name ks (ground (arith, sorted)) (ground (arith, apart)))
    ]

-- The number of a signal is the one that the platform defines for the name, with or without "SIG"
-- before it, if the name is one of those of the switch, and -1 otherwise.
signum_get-number :
    (defined : Defined) (name : Bytes)
    → signum_get defined name
      ≡ number_of defined (strip name) (is_listed (strip name) (all_names cases))
unfolding signum_get
signum_get-number defined name = switch-number defined (strip name) cases refl refl
