-- ===== src/Sigar/Interfaces/Primary.antt =====
-- sigar.c: which interface `sigar_net_interface_config_primary_get` chooses.
use Prim.Native.Nat.{bit_and}
use re_co_mon_b.Base.{
  ℕ, ◌≡◌, ◌⊎◌, refl, ap, ◌∙◌, Bool, not, ◌&&◌, ◌||◌, List, [], ◌∷◌, Option, none, some, Bytes, ◌==◌,
  if◌then◌else◌, Bool-cases, inl, inr, or_else,
}
use re_co_mon_b.Ptql.Host.{Reply, got, failed}
use re_co_mon_b.Sigar.Interfaces.{
  Config, Network, is_alias, save, primary_loop, decide, net_interface_config_primary_get,
}

-- A configuration with a hardware address that is not the loopback's.
abbrev pub is_candidate : Network → Config → Bool
is_candidate n c = not (not (bit_and c.flags n.iff_loopback == 0) || (c.hwaddr == 0))

abbrev pub is_usable : Network → Bytes → Config → Bool
is_usable n name c = is_candidate n c && not ((c.address == 0) || is_alias name)

abbrev pub is_possible : Network → Bytes → Config → Bool
is_possible n name c = is_candidate n c && not (c.flags == 0)

abbrev pub first_if : (Config → Bool) → Reply Config → Option Config → Option Config
first_if p (failed status) later = later
first_if p (got c) later = if p c then some c else later

-- The configuration of the first interface that has one and passes a test.
abbrev pub first_of : (Bytes → Config → Bool) → Network → List Bytes → Option Config
first_of p n [] = none
first_of p n (name ∷ names) = first_if (p name) (n.config name) (first_of p n names)

abbrev pub chosen : Network → Option Config → Reply Config
chosen n none = failed n.enxio
chosen n (some c) = got c

abbrev saved : Config → Option Config
saved c = if c.flags == 0 then none else some c

Reply-cases :
    (r : Reply Config) → ((c : Config) × (r ≡ got c)) ⊎ ((status : ℕ) × (r ≡ failed status))
Reply-cases (got c) = inl (c, refl)
Reply-cases (failed status) = inr (status, refl)

-- A candidate that is not usable, by whether an earlier one was saved.
or_else-saved :
    (possible c : Config) (usable later : Option Config)
    → or_else usable (or_else (saved (save possible c)) later)
      ≡ or_else usable (or_else (saved possible) (if not (c.flags == 0) then some c else later))
or_else-saved possible c usable later = elim (Bool-cases (possible.flags == 0)) [
  | inr some_flags ↦ rw (some_flags, some_flags)
  | inl zero_flags ↦ elim (Bool-cases (c.flags == 0)) [
    | inl without ↦ rw (zero_flags, without)
    | inr flagged ↦ rw (zero_flags, flagged)
  ]
]

primary_loop-first :
    (n : Network) (names : List Bytes) (possible : Config)
    → decide n (primary_loop n names possible)
      ≡ chosen n (
          or_else
            (first_of (is_usable n) n names)
            (or_else (saved possible) (first_of (is_possible n) n names)))
unfolding primary_loop
primary_loop-first n [] possible = elim (Bool-cases (possible.flags == 0)) [
  | inl zero_flags ↦ rw zero_flags
  | inr some_flags ↦ rw some_flags
]
primary_loop-first n (name ∷ names) possible = elim (Reply-cases (n.config name)) [
  | inr (status, e) ↦ rw e (primary_loop-first n names possible)
  | inl (c, e) ↦ elim (Bool-cases (not (bit_and c.flags n.iff_loopback == 0) || (c.hwaddr == 0))) [
    | inl unfit ↦ rw (e, unfit) (primary_loop-first n names possible)
    | inr fit ↦ elim (Bool-cases ((c.address == 0) || is_alias name)) [
      | inr usable ↦ rw (e, fit, usable)
      | inl spare ↦
          rw (e, fit, spare)
            (primary_loop-first n names (save possible c)
              ∙ ap (chosen n) (
                  or_else-saved possible c (first_of (is_usable n) n names)
                    (first_of (is_possible n) n names)))
    ]
  ]
]

-- Where the interfaces can be listed, the primary one is the first that has a hardware address, is
-- not the loopback's, has an address and is no alias; if there is none, the first that has a
-- hardware address and flags and is not the loopback's; and otherwise the status is SIGAR_ENXIO.
net_interface_config_primary_get-first :
    (n : Network) (names : List Bytes)
    → n.interfaces ≡ got names
    → net_interface_config_primary_get n
      ≡ chosen n (or_else (first_of (is_usable n) n names) (first_of (is_possible n) n names))
unfolding net_interface_config_primary_get
net_interface_config_primary_get-first n names e = rw e (primary_loop-first n names _)
