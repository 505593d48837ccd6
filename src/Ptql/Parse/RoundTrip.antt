-- ===== src/Ptql/Parse/RoundTrip.antt =====
-- `ptql_branch_parse` of sigar_ptql.c accepts exactly the texts `Name.Attr.[PI]op=value`.
use re_co_mon_b.Base.{
  ℕ, ◌≡◌, ◌≢◌, ◌↔◌, refl, sym, ap, ◌∙◌, true, false, List, [], ◌∷◌, ◌++◌, Bytes, ◌==◌, ==_iff, inl,
  inr, Bool-cases, Option-cases,
}
use re_co_mon_b.Libc.Split.{IsFree, split_at-append, split_at-eq-some}
use re_co_mon_b.Libc.{is_upper, split_at}
use re_co_mon_b.Ptql.Parse.{cut, read_flags, read_op, redirect, branch_parse}
use re_co_mon_b.Ptql.Types.{
  OpFlags, no_flags, ParseBranch, Error, missing_equals, missing_dot, Result, ok, err, ◌>>=◌,
  bind-eq-ok,
}

-- A flag of the operator, and its letter.
pub data Modifier : Type 0 where
  parent icase : Modifier

abbrev pub letters : List Modifier → Bytes
letters [] = []
letters (parent ∷ ms) = b'P' ∷ letters ms
letters (icase ∷ ms) = b'I' ∷ letters ms

abbrev pub apply : List Modifier → OpFlags → OpFlags
apply [] flags = flags
apply (parent ∷ ms) flags = apply ms (record flags { parent = true })
apply (icase ∷ ms) flags = apply ms (record flags { icase = true })

-- The operator's name does not begin with a capital.
abbrev pub IsPlain : Bytes → Type 0
IsPlain [] = Unit
IsPlain (c ∷ s) = is_upper c ≡ false

read_flags-letters :
    (ms : List Modifier) (flags : OpFlags) (op : Bytes)
    → IsPlain op
    → read_flags flags (letters ms ++ op) ≡ ok (apply ms flags, op)
unfolding read_flags is_upper
read_flags-letters [] flags [] h = refl
read_flags-letters [] flags (c ∷ s) h = rw h
read_flags-letters (parent ∷ ms) flags op h = read_flags-letters ms _ op h
read_flags-letters (icase ∷ ms) flags op h = read_flags-letters ms _ op h

-- What `read_flags` read.
record Reads (flags : OpFlags) (query : Bytes) (out : OpFlags) (op : Bytes) : Type 0 where
  mods : List Modifier
  text : query ≡ letters mods ++ op
  flags_are : out ≡ apply mods flags
  plain : IsPlain op

abbrev ReadsAs : OpFlags → Bytes → Result (OpFlags × Bytes) → Type 0
ReadsAs flags query (ok (out, op)) = Reads flags query out op
ReadsAs flags query (err e) = Unit

after_parent :
    (flags : OpFlags) (s : Bytes) (r : Result (OpFlags × Bytes))
    → ReadsAs (record flags { parent = true }) s r
    → ReadsAs flags (b'P' ∷ s) r
after_parent flags s (err e) h = tt
after_parent flags s (ok (out, op)) h = record {
  mods = parent ∷ h.mods;
  text = ap (◌∷◌ b'P') h.text;
  flags_are = h.flags_are;
  plain = h.plain;
}

after_icase :
    (flags : OpFlags) (s : Bytes) (r : Result (OpFlags × Bytes))
    → ReadsAs (record flags { icase = true }) s r
    → ReadsAs flags (b'I' ∷ s) r
after_icase flags s (err e) h = tt
after_icase flags s (ok (out, op)) h = record {
  mods = icase ∷ h.mods;
  text = ap (◌∷◌ b'I') h.text;
  flags_are = h.flags_are;
  plain = h.plain;
}

read_flags-ReadsAs :
    (flags : OpFlags) (query : Bytes) → ReadsAs flags query (read_flags flags query)
unfolding read_flags
read_flags-ReadsAs flags [] = record { mods = []; text = refl; flags_are = refl; plain = tt }
read_flags-ReadsAs flags (c ∷ s) = elim (Bool-cases (is_upper c)) [
  | inr low ↦ rw low (record { mods = []; text = refl; flags_are = refl; plain = low })
  | inl up ↦ elim (Bool-cases (c == b'P')) [
    | inl p ↦
        rw (up, p, (==_iff c b'P').0 p)
          (after_parent flags s _ (read_flags-ReadsAs (record flags { parent = true }) s))
    | inr no_p ↦ elim (Bool-cases (c == b'I')) [
      | inl i ↦
          rw (up, no_p, i, (==_iff c b'I').0 i)
            (after_icase flags s _ (read_flags-ReadsAs (record flags { icase = true }) s))
      | inr no_i ↦ rw (up, no_p, no_i) tt
    ]
  ]
]

-- The text before the `=`.
abbrev pub left_text : Bytes → Bytes → List Modifier → Bytes → Bytes
left_text name attr mods op = name ++ (b'.' ∷ (attr ++ (b'.' ∷ (letters mods ++ op))))

-- The text `Name.Attr.[PI]op=value` and what it stands for. Neither `Name` nor `Attr` holds a
-- dot, the first `=` is the one before the value, and the operator with its flags is not empty.
pub record Spells (query : Bytes) (p : ParseBranch) : Type 0 where
  pub name : Bytes
  pub attr : Bytes
  pub mods : List Modifier
  pub op : Bytes
  pub value : Bytes
  pub text : query ≡ left_text name attr mods op ++ b'=' ∷ value
  pub first_equals : IsFree b'=' (left_text name attr mods op)
  pub name_free : IsFree b'.' name
  pub attr_free : IsFree b'.' attr
  pub some_op : letters mods ++ op ≢ []
  pub plain : IsPlain op
  pub stands_for :
      p
      ≡ redirect (record {
        name = name;
        attr = attr;
        op = op;
        value = value;
        op_flags = apply mods no_flags;
      })

cut-append : (c : ℕ) (e : Error) (a b : Bytes) → IsFree c a → cut c e (a ++ c ∷ b) ≡ ok (a, b)
unfolding cut
cut-append c e a b f = rw (split_at-append c a b f, cut)

cut-eq-ok :
    (c : ℕ) (e : Error) (s a b : Bytes) → cut c e s ≡ ok (a, b) → (s ≡ a ++ c ∷ b) × IsFree c a
unfolding cut
cut-eq-ok c e s a b h = elim (Option-cases (split_at c s)) [
  | inl n ↦ absurd (cc (rw (n, cut) at h))
  | inr (r, m) ↦ split_at-eq-some c s a b (cc (m, rw (m, cut) at h))
]

read_op-letters :
    (ms : List Modifier) (op : Bytes)
    → letters ms ++ op ≢ []
    → IsPlain op
    → read_op (letters ms ++ op) ≡ ok (apply ms no_flags, op)
unfolding read_op
read_op-letters [] [] h plain = absurd (h refl)
read_op-letters [] (c ∷ s) h plain = read_flags-letters [] no_flags (c ∷ s) plain
read_op-letters (parent ∷ ms) op h plain = read_flags-letters (parent ∷ ms) no_flags op plain
read_op-letters (icase ∷ ms) op h plain = read_flags-letters (icase ∷ ms) no_flags op plain

read_op-Reads :
    (query : Bytes) (out : OpFlags) (op : Bytes)
    → read_op query ≡ ok (out, op)
    → (query ≢ []) × Reads no_flags query out op
unfolding read_op
read_op-Reads [] out op h = absurd (cc h)
read_op-Reads (c ∷ s) out op h = (λ e. cc, rw h at (read_flags-ReadsAs no_flags (c ∷ s)))

Spells-branch_parse : {query : Bytes} {p : ParseBranch} → Spells query p → branch_parse query ≡ ok p
unfolding branch_parse
Spells-branch_parse s = rw (
  s.text,
  s.stands_for,
  cut-append b'=' missing_equals (left_text s.name s.attr s.mods s.op) s.value s.first_equals,
  ◌>>=◌,
  cut-append b'.' missing_dot s.name _ s.name_free,
  ◌>>=◌,
  cut-append b'.' missing_dot s.attr _ s.attr_free,
  ◌>>=◌,
  read_op-letters s.mods s.op s.some_op s.plain,
)

-- The pieces of a parse put together.
assemble :
    (value name attr op : Bytes) {query left left1 left2 : Bytes} {flags : OpFlags}
    {p : ParseBranch}
    → (query ≡ left ++ b'=' ∷ value) × IsFree b'=' left
    → (left ≡ name ++ b'.' ∷ left1) × IsFree b'.' name
    → (left1 ≡ attr ++ b'.' ∷ left2) × IsFree b'.' attr
    → (left2 ≢ []) × Reads no_flags left2 flags op
    → ok (redirect (record { name = name; attr = attr; op = op; value = value; op_flags = flags }))
      ≡ ok p
    → Spells query p
assemble value name attr op (e1, f1) (e2, f2) (e3, f3) (some_op, r) h =
    let e : left_text name attr r.mods op ≡ _ = sym (e2 ∙ rw (e3, r.text)) in
    record {
      name = name;
      attr = attr;
      mods = r.mods;
      op = op;
      value = value;
      text = e1 ∙ rw e;
      first_equals = rw e f1;
      name_free = f2;
      attr_free = f3;
      some_op = λ z. some_op (r.text ∙ z);
      plain = r.plain;
      stands_for = rw (← r.flags_are) cc;
    }

branch_parse-Spells : (query : Bytes) (p : ParseBranch) → branch_parse query ≡ ok p → Spells query p
unfolding branch_parse
branch_parse-Spells query p h =
    let ((left, value), c1, h1) = bind-eq-ok (cut b'=' missing_equals query) _ h in
    let ((name, left1), c2, h2) = bind-eq-ok (cut b'.' missing_dot left) _ h1 in
    let ((attr, left2), c3, h3) = bind-eq-ok (cut b'.' missing_dot left1) _ h2 in
    let ((flags, op), c4, h4) = bind-eq-ok (read_op left2) _ h3 in
    assemble value name attr op (cut-eq-ok b'=' missing_equals query left value c1)
      (cut-eq-ok b'.' missing_dot left name left1 c2)
      (cut-eq-ok b'.' missing_dot left1 attr left2 c3) (read_op-Reads left2 flags op c4) h4

-- `ptql_branch_parse` accepts exactly the texts `Name.Attr.[PI]op=value`, and answers with their
-- parts; the attribute `Service` stands for `Service.Name`.
pub branch_parse_iff :
    (query : Bytes) (p : ParseBranch) → (branch_parse query ≡ ok p) ↔ Spells query p
branch_parse_iff query p = (branch_parse-Spells query p, Spells-branch_parse)
