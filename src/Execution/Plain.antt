-- ===== src/Execution/Plain.antt =====
-- A line of a script without calls under RR: it ends, and takes one of the quantum or goes to the next
-- line.
use sisop_2012_2c.Shared.{
  ℕ, zero, suc, ◌+◌, ◌%◌, ◌<◌, ◌≤◌, ◌≡◌, ◌≢◌, refl, ap, ◌∙◌, ◌⊎◌, inl, inr, true, false, ◌||◌, List,
  [], ◌∷◌, Option, some, none, CString, codes, str_eq, length, get_elem?, ◌==◌, if◌then◌else◌,
  arith,
}
use sisop_2012_2c.Shared.Int.{to_u32}
use sisop_2012_2c.Shared.Outcome.{
  Outcome, ok, ◌>>=◌, Any, Settles, Settles-ok, Settles-fault, Settles-if, Settles->>=,
}
use sisop_2012_2c.Commons.{Collections, Strings, string_starts_with, string_ends_with}
use sisop_2012_2c.Doubles.{Doubles}
use sisop_2012_2c.Memory.Progress.{IsSized}
use sisop_2012_2c.Script.{advance}
use sisop_2012_2c.Script.Progress.{advance-Settles}
use sisop_2012_2c.Machine.{
  Machine, char_at, set_pc, variables_step, imprimir_step, ssc_step, snc_step, assign_step,
  assign_io_step, io_step,
}
use sisop_2012_2c.Machine.Progress.{char_at-Settles}
use sisop_2012_2c.Machine.Charge.{
  Spends, variables_step-Spends, imprimir_step-Spends, ssc_step-Spends, snc_step-Spends,
  assign_step-Spends, io_step-Spends,
}
use sisop_2012_2c.Execution.{Next, goes, calls, process_step, common_step, assigns_io}

-- No line is a call, or assigns what io gives.
abbrev pub IsPlain : ⦃s : Strings⦄ → List CString → Type 0
IsPlain [] = Unit
IsPlain (line ∷ code) =
    (string_ends_with line (codes "()") ≡ false)
    × (assigns_io line ≢ ok (true, true))
    × IsPlain code

IsPlain-get_elem? :
    ⦃s : Strings⦄ (code : List CString) (i : ℕ) (line : CString)
    → IsPlain code
    → get_elem? code i ≡ some line
    → (string_ends_with line (codes "()") ≡ false) × (assigns_io line ≢ ok (true, true))
IsPlain-get_elem? [] i line h e = cc
IsPlain-get_elem? (l ∷ code) zero line (call, io, h) e =
    let same : l ≡ line = ap (λ (o : Option CString). value_or line o) e in
    (rw same at call, rw same at io)
  where
    value_or : CString → Option CString → CString
    value_or default (some v) = v
    value_or default none = default
IsPlain-get_elem? (l ∷ code) (suc i) line h e = IsPlain-get_elem? code i line h.2 e

assigns_io-Settles : ⦃s : Strings⦄ (line : CString) → Settles Any (assigns_io line)
unfolding assigns_io
assigns_io-Settles line = Settles->>= Any (char_at line 1) (char_at-Settles line 1) λ second e u.
    Settles-if (second == b'=')
      (λ f. Settles->>= Any (advance 2 line) (advance-Settles 2 line) λ text g v. Settles-ok _ _)
      (λ f. Settles-ok _ _)

pub get_elem?-lt : {A : Type 0} (l : List A) (i : ℕ) (x : A) → get_elem? l i ≡ some x → i < length l
get_elem?-lt [] i x e = cc
get_elem?-lt (y ∷ l) zero x e = omega arith
get_elem?-lt (y ∷ l) (suc i) x e = omega (arith, get_elem?-lt l i x e)

module _ {D : Type 0} ⦃c : Collections⦄ ⦃s : Strings⦄ ⦃d : Doubles D⦄ (code : List CString)
    (plain : IsPlain code) (short : length code ≤ 65535) where
  -- The line makes no call, and it takes one of the quantum or goes to the next line.
  abbrev pub Advances : Machine D → Next D → Type 0
  Advances m (goes n) =
      (n.image.stack ≡ m.image.stack)
      × (n.system.settings ≡ m.system.settings)
      × IsSized n.image.vars
      × ((n.quantum_count ≡ suc m.quantum_count)
          ⊎ ((n.quantum_count ≡ m.quantum_count)
              × (n.image.pc ≡ (m.image.pc + 1) % 65536)
              × (n.image.pc < length code)))
  Advances m (calls n f) = ⊥

  module _ (before : Machine D) (sized : IsSized before.image.vars)
      (rr : str_eq before.system.settings.alg (codes "RR") ≡ true) (line : CString)
      (at : get_elem? code ((before.image.pc + 1) % 65536) ≡ some line) where
    abbrev pc : ℕ
    pc = (before.image.pc + 1) % 65536

    abbrev moved : Machine D
    moved = set_pc before pc

    spent : (n : Machine D) → Spends moved n → Advances before (goes n)
    spent n (stack, settings, still, inl count) = (stack, settings, still, inl count)
    spent n (stack, settings, still, inr (count, same)) =
        (stack, settings, still, inr (count, same, rw same (get_elem?-lt code pc line at)))

    after-Advances :
        (r : Outcome (Machine D))
        → Settles (Spends moved) r
        → Settles (Advances before) (do m ← r; ok (goes m))
    after-Advances r h = Settles->>= (Spends moved) r h λ n e p. Settles-ok (goes n) (spent n p)

    stays : Settles (Advances before) (ok (goes moved))
    stays = Settles-ok (goes moved) (spent moved (refl, refl, sized, inr (refl, refl)))

    common_step-Advances :
        Settles (Advances before) (common_step code (assign_io_step pc) to_u32 pc line moved)
    unfolding common_step
    common_step-Advances =
        let (no_call, no_io) = IsPlain-get_elem? code pc line plain at in
        Settles->>= Any (assigns_io line) (assigns_io-Settles line) λ (assigns, io) e u.
          Settles-if assigns
            (λ f.
              after-Advances (if io then assign_io_step pc line moved else assign_step line moved) (
                Settles-if io
                  (λ g. absurd (no_io (e ∙ ap (λ b. ok (b, io)) f ∙ ap (λ b. ok (true, b)) g)))
                  (λ g. assign_step-Spends moved sized rr line)))
            (λ f.
              Settles-if (string_starts_with line (codes "io("))
                (λ g.
                  after-Advances (io_step to_u32 pc line moved)
                    (io_step-Spends moved sized rr to_u32 pc line))
                (λ g.
                  Settles-if (string_ends_with line (codes "()")) (λ call. cc) (λ nothing. stays)))

    process_line-Advances : Settles (Advances before) (process_step code before)
    unfolding process_step
    process_line-Advances = rw at (
        Settles-if (str_eq line [] || string_ends_with line (codes ":")) (λ a. stays)
          (λ a.
            Settles-if (string_starts_with line (codes "variables"))
              (λ b.
                after-Advances (variables_step line moved)
                  (variables_step-Spends moved sized rr line))
              (λ b.
                Settles-if (string_starts_with line (codes "imprimir"))
                  (λ e.
                    after-Advances (imprimir_step line moved)
                      (imprimir_step-Spends moved sized rr line))
                  (λ e.
                    Settles-if (string_starts_with line (codes "ssc"))
                      (λ f.
                        after-Advances (ssc_step code line moved)
                          (ssc_step-Spends moved sized rr code short line))
                      (λ f.
                        Settles-if (string_starts_with line (codes "snc"))
                          (λ g.
                            after-Advances (snc_step code line moved)
                              (snc_step-Spends moved sized rr code short line))
                          (λ g. common_step-Advances))))))

  pub process_step-Advances :
      (m : Machine D)
      → IsSized m.image.vars
      → str_eq m.system.settings.alg (codes "RR") ≡ true
      → Settles (Advances m) (process_step code m)
  unfolding process_step
  process_step-Advances m sized rr = elim (found (get_elem? code ((m.image.pc + 1) % 65536))) [
    | inl beyond ↦ rw beyond Settles-fault
    | inr (line, at) ↦ process_line-Advances m sized rr line at
  ]
    where
      found : (o : Option CString) → (o ≡ none) ⊎ ((line : CString) × (o ≡ some line))
      found none = inl refl
      found (some line) = inr (line, refl)
