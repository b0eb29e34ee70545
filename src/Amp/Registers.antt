-- ===== src/Amp/Registers.antt =====
-- The registers that the transactions of clevo_amp_control.c leave, on a device that keeps what is
-- written.
use mathlib.Core.List.{map-append}
use tjtools.Common.{
  ℕ, ◌≡◌, ◌≢◌, ap, ◌∙◌, subst, arith, List, [], ◌∷◌, ◌++◌, map, ◌⊎◌, inl, inr, All, ◌==◌,
  if◌then◌else◌,
}
use tjtools.Amp.{
  no_change, bass_boost, unknown1, unknown2, boost_all, unknown3, unknown4, wrote, got, History,
  Device, output_disable_pkt, output_enable_pkt, Effect, effects_vals, effects_cmds, gen_effect,
  effect_pakets,
}
use tjtools.Amp.Plan.{
  Order, put, keep, order_of, prolog, orders_of, Reads, Carried, Broken, Broken-append,
}

-- The registers after the transactions.
abbrev pub registers : (ℕ → ℕ) → History → ℕ → ℕ
registers initial [] r = initial r
registers initial (wrote cmd val ∷ h) r = if r == cmd then val else registers initial h r
registers initial (_ ∷ h) r = registers initial h r

-- A byte that the device gives is the one in the register.
abbrev pub IsMemory : (ℕ → ℕ) → Device → Type 0
IsMemory initial D = (h : History) (cmd val : ℕ) → Reads D h cmd val → val ≡ registers initial h cmd

-- The order does not change the register.
abbrev Spares : ℕ → Order → Type 0
Spares r (put cmd val) = r ≢ cmd
Spares r (keep cmd) = Unit

spared : (cmd val r old : ℕ) → r ≢ cmd → (if r == cmd then val else old) ≡ old
spared cmd val r old s = ground arith

-- What precedes the values of an effect: the prolog, and the output switched off.
abbrev before : List Order
before = prolog ++ order_of output_disable_pkt ∷ []

effect-Spares : (e : Effect) → All (Spares 0x00) (map order_of (gen_effect e))
effect-Spares no_change = ground arith
effect-Spares bass_boost = ground arith
effect-Spares unknown1 = ground arith
effect-Spares unknown2 = ground arith
effect-Spares boost_all = ground arith
effect-Spares unknown3 = ground arith
effect-Spares unknown4 = ground arith

module _ (initial : ℕ → ℕ) (D : Device) (memory : IsMemory initial D) where
  keeps :
      (cmd val r : ℕ) (h : History)
      → Reads D h cmd val
      → registers initial (wrote cmd val ∷ got cmd val ∷ h) r ≡ registers initial h r
  keeps cmd val r h reads = grind (arith, memory h cmd val reads)

  Carried-registers :
      (orders : List Order) (r : ℕ) (h h' : History)
      → All (Spares r) orders
      → Carried D orders h h'
      → registers initial h' r ≡ registers initial h r
  Carried-registers [] r h h' s c = ap (λ k. registers initial k r) c
  Carried-registers (put cmd val ∷ orders) r h h' (s, ss) c =
      Carried-registers orders r (wrote cmd val ∷ h) h' ss c
      ∙ spared cmd val r (registers initial h r) s
  Carried-registers (keep cmd ∷ orders) r h h' (s, ss) (val, reads, c) =
      Carried-registers orders r (wrote cmd val ∷ got cmd val ∷ h) h' ss c ∙ keeps cmd val r h reads

  Broken-registers :
      (orders : List Order) (r : ℕ) (h h' : History)
      → All (Spares r) orders
      → Broken D orders h h'
      → registers initial h' r ≡ registers initial h r
  Broken-registers [] r h h' s b = absurd b
  Broken-registers (put cmd val ∷ orders) r h h' (s, ss) (inl e) = ap (λ k. registers initial k r) e
  Broken-registers (put cmd val ∷ orders) r h h' (s, ss) (inr b) =
      Broken-registers orders r (wrote cmd val ∷ h) h' ss b
      ∙ spared cmd val r (registers initial h r) s
  Broken-registers (keep cmd ∷ orders) r h h' (s, ss) (inl e) = ap (λ k. registers initial k r) e
  Broken-registers (keep cmd ∷ orders) r h h' (s, ss) (inr (val, reads, inl e)) =
      ap (λ k. registers initial k r) e
  Broken-registers (keep cmd ∷ orders) r h h' (s, ss) (inr (val, reads, inr b)) =
      Broken-registers orders r (wrote cmd val ∷ got cmd val ∷ h) h' ss b ∙ keeps cmd val r h reads

  observed :
      (h h' : History)
      → h ≡ h'
      → (map (registers initial h) effects_cmds ≡ map (registers initial h') effects_cmds)
        × (registers initial h 0x00 ≡ registers initial h' 0x00)
  observed h h' e =
      (ap (λ k. map (registers initial k) effects_cmds) e, ap (λ k. registers initial k 0x00) e)

  -- Every effect, carried out: its values are in the registers and the output is on.
  pub effect-Carried :
      (e : Effect) (h h' : History)
      → Carried D (orders_of (effect_pakets e)) h h'
      → (map (registers initial h') effects_cmds ≡ effects_vals e)
        × (registers initial h' 0x00 ≡ 0x82)
  effect-Carried no_change h h' (v, r, (w, s, c)) = observed h' _ c
  effect-Carried bass_boost h h' (v, r, (w, s, c)) = observed h' _ c
  effect-Carried unknown1 h h' (v, r, (w, s, c)) = observed h' _ c
  effect-Carried unknown2 h h' (v, r, (w, s, c)) = observed h' _ c
  effect-Carried boost_all h h' (v, r, (w, s, c)) = observed h' _ c
  effect-Carried unknown3 h h' (v, r, (w, s, c)) = observed h' _ c
  effect-Carried unknown4 h h' (v, r, (w, s, c)) = observed h' _ c

  split :
      (e : Effect) (m h' : History)
      → Broken D (map order_of (gen_effect e ++ output_enable_pkt ∷ [])) m h'
      → Broken D (map order_of (gen_effect e) ++ order_of output_enable_pkt ∷ []) m h'
  split e m h' =
      subst (λ orders. Broken D orders m h')
        (map-append order_of (gen_effect e) (output_enable_pkt ∷ []))

  after-muted :
      (e : Effect) (h h' : History)
      → Broken D (map order_of (gen_effect e) ++ order_of output_enable_pkt ∷ []) h h'
      → registers initial h' 0x00 ≡ registers initial h 0x00
  after-muted e h h' b =
      elim (Broken-append D (map order_of (gen_effect e)) (order_of output_enable_pkt ∷ []) h h'
        b) [
          | inl b' ↦ Broken-registers (map order_of (gen_effect e)) 0x00 h h' (effect-Spares e) b'
          | inr (m, c, inl f) ↦
              ap (λ k. registers initial k 0x00) f
              ∙ Carried-registers (map order_of (gen_effect e)) 0x00 h m (effect-Spares e) c
          | inr (m, c, inr b') ↦ absurd b'
        ]

  -- The write to the output is the last, so that a failure leaves the output alone.
  pub output-Broken :
      (val r : ℕ) (h h' : History)
      → r ≢ 0x0a
      → Broken D (prolog ++ put 0x00 val ∷ []) h h'
      → registers initial h' r ≡ registers initial h r
  output-Broken val r h h' ten b = elim (Broken-append D prolog (put 0x00 val ∷ []) h h' b) [
    | inl b' ↦ Broken-registers prolog r h h' (ten, (tt, (tt, tt))) b'
    | inr (m, c, inl f) ↦
        ap (λ k. registers initial k r) f ∙ Carried-registers prolog r h m (ten, (tt, (tt, tt))) c
    | inr (m, c, inr b') ↦ absurd b'
  ]

  -- An effect that fails is not heard: apart from the register 0x0a of the prolog nothing has changed,
  -- the output included, or the output is off.
  pub effect-Broken :
      (e : Effect) (h h' : History)
      → Broken D (orders_of (effect_pakets e)) h h'
      → ((r : ℕ) → r ≢ 0x0a → registers initial h' r ≡ registers initial h r)
        ⊎ (registers initial h' 0x00 ≡ 0x86)
  effect-Broken e h h' b =
      elim (Broken-append D before (map order_of (gen_effect e ++ output_enable_pkt ∷ [])) h h' b) [
        | inl b' ↦ inl (λ r ten. output-Broken 0x86 r h h' ten b')
        | inr (m, (v, reads, (w, reads', c)), b') ↦
            inr (after-muted e m h' (split e m h' b') ∙ ap (λ k. registers initial k 0x00) c)
      ]

  output_val :
      (val : ℕ) (h h' : History)
      → Carried D (prolog ++ put 0x00 val ∷ []) h h'
      → registers initial h' 0x00 ≡ val
  output_val val h h' (v, r, (w, s, c)) = ap (λ k. registers initial k 0x00) c

  -- One write to the output, carried out or broken off.
  pub output-Carried :
      (val : ℕ) (h h' : History)
      → Carried D (prolog ++ put 0x00 val ∷ []) h h'
      → (registers initial h' 0x00 ≡ val)
        × ((r : ℕ) → r ≢ 0x00 → r ≢ 0x0a → registers initial h' r ≡ registers initial h r)
  output-Carried val h h' c = (
    output_val val h h' c,
    (λ r zero' ten.
        Carried-registers (prolog ++ put 0x00 val ∷ []) r h h' (ten, (tt, (tt, (zero', tt)))) c),
  )
