-- ===== src/Machine/Charge.antt =====
-- An instruction under RR comes to an end, and takes one of the quantum or leaves the PC alone.
use sisop_2012_2c.Shared.{
  ℕ, suc, ◌≤◌, ◌≡◌, refl, ap, ◌∙◌, ◌⊎◌, inl, inr, true, List, [], ◌∷◌, CString, codes, str_eq,
  length, if◌then◌else◌, ◌==◌,
}
use sisop_2012_2c.Shared.Int.{ℤ, pos, eqb_ℤ}
use sisop_2012_2c.Shared.Outcome.{ok, ◌>>=◌, Any, Settles, Settles-ok, Settles-if, Settles->>=}
use sisop_2012_2c.Shared.Number.{atoi-Settles}
use sisop_2012_2c.Commons.{Collections, Strings}
use sisop_2012_2c.Doubles.{Doubles}
use sisop_2012_2c.System.{Settings}
use sisop_2012_2c.Memory.{read_data, write_data, add_variables}
use sisop_2012_2c.Memory.Progress.{
  IsSized, read_data-Settles, write_data-Settles, add_variables-Settles,
}
use sisop_2012_2c.Script.{advance, change_pc}
use sisop_2012_2c.Script.Progress.{advance-Settles, change_pc-Settles}
use sisop_2012_2c.Machine.Expression.{evaluate}
use sisop_2012_2c.Machine.Expression.Progress.{evaluate-Settles}
use sisop_2012_2c.Machine.Progress.{char_at-Settles, io_arguments-Settles}
use sisop_2012_2c.Machine.{
  char_at, line_time, from_semicolon, io_arguments, Machine, charge, write_step, variables_step,
  imprimir_step, ssc_step, snc_step, assign_step, io_step, threads_free,
}

module _ {D : Type 0} where
  -- Neither the calls nor the settings nor the quantum are touched, and the data stay short.
  abbrev pub Spares : Machine D → Machine D → Type 0
  Spares m n =
      (n.image.stack ≡ m.image.stack)
      × (n.system.settings ≡ m.system.settings)
      × (n.quantum_count ≡ m.quantum_count)
      × IsSized n.image.vars

  -- It has taken one of the quantum, or the PC has not moved.
  abbrev pub Spends : Machine D → Machine D → Type 0
  Spends m n =
      (n.image.stack ≡ m.image.stack)
      × (n.system.settings ≡ m.system.settings)
      × IsSized n.image.vars
      × ((n.quantum_count ≡ suc m.quantum_count)
          ⊎ ((n.quantum_count ≡ m.quantum_count) × (n.image.pc ≡ m.image.pc)))

  line_time-Settles : (text : CString) (m : Machine D) → Settles Any (line_time text m)
  line_time-Settles [] m = Settles-ok _ _
  line_time-Settles (b ∷ s) m = Settles-if (b == b';') (λ e. atoi-Settles s) (λ e. Settles-ok _ _)

module _ {D : Type 0} ⦃c : Collections⦄ ⦃s : Strings⦄ ⦃d : Doubles D⦄ (m : Machine D)
    (sized : IsSized m.image.vars) (rr : str_eq m.system.settings.alg (codes "RR") ≡ true) where
  charge-Spends : (n : Machine D) → Spares m n → Settles (Spends m) (ok (charge n))
  charge-Spends n (stack, settings, count, still) =
      let charged = ap (λ (t : Settings D). str_eq t.alg (codes "RR")) settings ∙ rr in
      Settles-ok _ (stack, settings, still, inl (rw charged (ap suc count)))

  untaken : (n : Machine D) → Spares m n → n.image.pc ≡ m.image.pc → Settles (Spends m) (ok n)
  untaken n (stack, settings, count, still) pc =
      Settles-ok n (stack, settings, still, inr (count, pc))

  write_step-Spares : (name : ℕ) (value : ℤ) → Settles (Spares m) (write_step name value m)
  unfolding write_step
  write_step-Spares name value =
      Settles->>= IsSized (write_data m.image.vars name value)
        (write_data-Settles m.image.vars name value sized)
        λ vars e still. Settles-ok _ (refl, refl, refl, still)

  pub variables_step-Spends : (line : CString) → Settles (Spends m) (variables_step line m)
  unfolding variables_step
  variables_step-Spends line =
      Settles->>= Any (advance 10 line) (advance-Settles 10 line) λ names e u.
        Settles->>= IsSized (add_variables m.image.vars names)
          (add_variables-Settles m.image.vars names sized)
          λ vars f still. untaken _ (refl, refl, refl, still) refl

  pub imprimir_step-Spends : (line : CString) → Settles (Spends m) (imprimir_step line m)
  unfolding imprimir_step
  imprimir_step-Spends line = Settles->>= Any (char_at line 9) (char_at-Settles line 9) λ name e u.
      Settles->>= Any (read_data m.image.vars name) (read_data-Settles m.image.vars name sized)
        λ value f v. untaken _ (refl, refl, refl, sized) refl

  module _ (code : List CString) (short : length code ≤ 65535) (line : CString) where
    target-Settles : Settles Any (do tag ← advance 6 line; change_pc code tag)
    target-Settles =
        Settles->>= Any (advance 6 line) (advance-Settles 6 line)
          λ tag e u. change_pc-Settles code tag short

    pub ssc_step-Spends : Settles (Spends m) (ssc_step code line m)
    unfolding ssc_step
    ssc_step-Spends = Settles->>= Any (char_at line 4) (char_at-Settles line 4) λ name e u.
        Settles->>= Any (read_data m.image.vars name) (read_data-Settles m.image.vars name sized)
          λ value f v.
            Settles->>= Any
              (if eqb_ℤ value (pos 0)
                then (do tag ← advance 6 line; change_pc code tag)
                else ok m.image.pc)
              (Settles-if (eqb_ℤ value (pos 0)) (λ g. target-Settles) (λ g. Settles-ok _ _))
              λ target g w.
                Settles->>= Any (line_time (from_semicolon line) m)
                  (line_time-Settles (from_semicolon line) m)
                  λ seconds h x. charge-Spends _ (refl, refl, refl, sized)

    pub snc_step-Spends : Settles (Spends m) (snc_step code line m)
    unfolding snc_step
    snc_step-Spends = Settles->>= Any (char_at line 4) (char_at-Settles line 4) λ name e u.
        Settles->>= Any (read_data m.image.vars name) (read_data-Settles m.image.vars name sized)
          λ value f v.
            Settles->>= Any
              (if eqb_ℤ value (pos 0)
                then ok m.image.pc
                else (do tag ← advance 6 line; change_pc code tag))
              (Settles-if (eqb_ℤ value (pos 0)) (λ g. Settles-ok _ _) (λ g. target-Settles))
              λ target g w.
                Settles->>= Any (line_time (from_semicolon line) m)
                  (line_time-Settles (from_semicolon line) m)
                  λ seconds h x. charge-Spends _ (refl, refl, refl, sized)

  pub assign_step-Spends : (line : CString) → Settles (Spends m) (assign_step line m)
  unfolding assign_step
  assign_step-Spends line = Settles->>= Any (advance 1 line) (advance-Settles 1 line) λ text e u.
      Settles->>= Any (evaluate m.image.vars text) (evaluate-Settles m.image.vars text sized)
        λ value f v. Settles->>= Any (char_at line 0) (char_at-Settles line 0) λ name g w.
          Settles->>= (Spares m) (write_step name value.0 m) (write_step-Spares name value.0)
            λ written h x.
              Settles->>= Any (line_time value.1 m) (line_time-Settles value.1 m)
                λ seconds i y. charge-Spends _ x

  pub io_step-Spends :
      (width : ℤ → ℕ) (pc : ℕ) (line : CString) → Settles (Spends m) (io_step width pc line m)
  unfolding io_step
  io_step-Spends width pc line =
      Settles->>= Any (advance 3 line) (advance-Settles 3 line) λ text e u.
        Settles->>= Any (io_arguments text) (io_arguments-Settles text) λ arguments f v.
          Settles-if arguments.1
            (λ at_once.
              Settles-if (threads_free m) (λ free. untaken _ (refl, refl, refl, sized) refl)
                (λ busy. untaken _ (refl, refl, refl, sized) refl))
            (λ waits. untaken _ (refl, refl, refl, sized) refl)
