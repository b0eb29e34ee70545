-- ===== src/Amp/Operations.antt =====
-- src/clevo_amp_control.c: what the modes leave on the device.
use tjtools.Common.{
  ◌≤◌, subst, ap, sym, ◌∙◌, All, codes, equal, equal_iff, Bool-cases, ℕ, ◌≡◌, ◌≢◌, refl, Bool, true,
  false, List, [], ◌∷◌, Option, none, some, Bytes, if◌then◌else◌, ◌⊎◌, inl, inr, map, arith, ◌++◌,
}
use tjtools.Common.Int.{ℤ, pos, negsuc}
use tjtools.Amp.{
  History, Device, AmplifierPaket, output_disable_pkt, output_enable_pkt, Effect, no_change,
  bass_boost, unknown1, unknown2, boost_all, unknown3, unknown4, effects_vals, effects_cmds,
  effect_pakets, recovery_pkts, pakets_write,
}
use tjtools.Amp.Plan.{
  Order, put, prolog, orders_of, IsNegative, IsZero, Carried, Broken, Follows, pakets_write-Follows,
}
use tjtools.Amp.Registers.{
  registers, IsMemory, effect-Carried, effect-Broken, output-Carried, output-Broken,
}
use tjtools.Amp.Control.{
  invalid, Host, Run, amp_effect, amp_mute, parse_effect, open_amplifier, apply, finish, with_mode,
  unfmt_modes, effect_of, amp_main,
}

module _ (initial : ℕ → ℕ) (D : Device) (memory : IsMemory initial D) where
  -- Registers other than 0x0a, which the prolog sets, are as they were: the output, and the two that the
  -- prolog writes back, too.
  abbrev pub IsUnchanged : History → History → Type 0
  IsUnchanged h h' = (r : ℕ) → r ≢ 0x0a → registers initial h' r ≡ registers initial h r

  -- The same, but for the output.
  abbrev pub IsUntouched : History → History → Type 0
  IsUntouched h h' = (r : ℕ) → r ≢ 0x00 → r ≢ 0x0a → registers initial h' r ≡ registers initial h r

  -- On a device that keeps what is written, amp_effect returns 0 with the values of the effect in the
  -- registers and the output on, or a negative number. Then either no register but 0x0a, which the
  -- prolog sets, has changed, or the output is off: a part of an effect is never heard.
  pub amp_effect-registers :
      (e : Effect) (h : History)
      → let r = amp_effect D e h in
        ((r.0 ≡ pos 0)
          × (map (registers initial r.1) effects_cmds ≡ effects_vals e)
          × (registers initial r.1 0x00 ≡ 0x82))
        ⊎ (IsNegative r.0 × (IsUnchanged h r.1 ⊎ (registers initial r.1 0x00 ≡ 0x86)))
  amp_effect-registers e h = elim (pakets_write-Follows D (effect_pakets e) h) [
    | inl (done, c) ↦
        let (values, output) = effect-Carried initial D memory e h (amp_effect D e h).1 c in
        inl (done, values, output)
    | inr (failed, b) ↦ inr (failed, effect-Broken initial D memory e h (amp_effect D e h).1 b)
  ]

  muted :
      (val : ℕ) (h : History) (r : ℤ × History)
      → Follows D IsZero (prolog ++ put 0x00 val ∷ []) h r
      → (((r.0 ≡ pos 0) × (registers initial r.1 0x00 ≡ val))
          ⊎ (IsNegative r.0 × (registers initial r.1 0x00 ≡ registers initial h 0x00)))
        × IsUntouched h r.1
  muted val h r (inl (done, c)) =
      let (output, others) = output-Carried initial D memory val h r.1 c in
      (inl (done, output), others)
  muted val h r (inr (failed, b)) =
      let same = output-Broken initial D memory val in
      (inr (failed, same 0x00 h r.1 (ground arith) b), (λ k zero' ten. same k h r.1 ten b))

  -- On such a device, amp_mute returns 0 with the output switched off or on as asked for, or a negative
  -- number with the output as it was. Only the register of the prolog changes besides.
  pub amp_mute-registers :
      (state : Bool) (h : History)
      → let r = amp_mute D state h in
        (((r.0 ≡ pos 0) × (registers initial r.1 0x00 ≡ (if state then 0x86 else 0x82)))
          ⊎ (IsNegative r.0 × (registers initial r.1 0x00 ≡ registers initial h 0x00)))
        × IsUntouched h r.1
  amp_mute-registers true h =
      muted 0x86 h (amp_mute D true h) (pakets_write-Follows D (output_disable_pkt ∷ []) h)
  amp_mute-registers false h =
      muted 0x82 h (amp_mute D false h) (pakets_write-Follows D (output_enable_pkt ∷ []) h)

abbrev pub puts : List ℕ → List ℕ → List Order
puts (cmd ∷ cmds) (val ∷ vals) = put cmd val ∷ puts cmds vals
puts _ _ = []

-- The orders of an effect: the output is off while the values of the effect are written.
abbrev pub effect_orders : Effect → List Order
effect_orders e =
    prolog ++ put 0x00 0x86 ∷ (puts effects_cmds (effects_vals e) ++ put 0x00 0x82 ∷ [])

abbrev pub number_of : Effect → ℕ
number_of no_change = 0
number_of bass_boost = 1
number_of unknown1 = 2
number_of unknown2 = 3
number_of boost_all = 4
number_of unknown3 = 5
number_of unknown4 = 6

abbrev pub mode_names : List Bytes
mode_names = codes "init" ∷ codes "effect" ∷ codes "mute" ∷ codes "unmute" ∷ codes "recovery" ∷ []

-- The orders that the arguments of the command line stand for: none, if there is no such mode or effect.
pub data Asks (sscanf_u : Bytes → Option ℕ)
    : Bytes → List Bytes → Option (List Order) → Type 0 where
  asks_init :
      {rest : List Bytes} → Asks sscanf_u (codes "init") rest (some (effect_orders bass_boost))
  asks_effect :
      {arg : Bytes} {rest : List Bytes} (e : Effect)
      → sscanf_u arg ≡ some (number_of e)
      → Asks sscanf_u (codes "effect") (arg ∷ rest) (some (effect_orders e))
  no_argument : Asks sscanf_u (codes "effect") [] none
  no_number :
      {arg : Bytes} {rest : List Bytes}
      → sscanf_u arg ≡ none
      → Asks sscanf_u (codes "effect") (arg ∷ rest) none
  no_effect :
      {arg : Bytes} {rest : List Bytes} (n : ℕ)
      → sscanf_u arg ≡ some n
      → 7 ≤ n
      → Asks sscanf_u (codes "effect") (arg ∷ rest) none
  asks_mute :
      {rest : List Bytes} → Asks sscanf_u (codes "mute") rest (some (prolog ++ put 0x00 0x86 ∷ []))
  asks_unmute :
      {rest : List Bytes}
      → Asks sscanf_u (codes "unmute") rest (some (prolog ++ put 0x00 0x82 ∷ []))
  asks_recovery :
      {rest : List Bytes}
      → Asks sscanf_u (codes "recovery") rest (some (prolog ++ put 0x0b 0x82 ∷ put 0x0b 0x92 ∷ []))
  no_mode :
      {m : Bytes} {rest : List Bytes}
      → All (λ name. m ≢ name) mode_names
      → Asks sscanf_u m rest none

effect_pakets-effect_orders : (e : Effect) → orders_of (effect_pakets e) ≡ effect_orders e
effect_pakets-effect_orders no_change = refl
effect_pakets-effect_orders bass_boost = refl
effect_pakets-effect_orders unknown1 = refl
effect_pakets-effect_orders unknown2 = refl
effect_pakets-effect_orders boost_all = refl
effect_pakets-effect_orders unknown3 = refl
effect_pakets-effect_orders unknown4 = refl

effect_of-number_of : (e : Effect) → effect_of (number_of e) ≡ some e
effect_of-number_of no_change = refl
effect_of-number_of bass_boost = refl
effect_of-number_of unknown1 = refl
effect_of-number_of unknown2 = refl
effect_of-number_of boost_all = refl
effect_of-number_of unknown3 = refl
effect_of-number_of unknown4 = refl

effect_of_beyond : (n : ℕ) → 7 ≤ n → effect_of n ≡ none
effect_of_beyond n h = ground arith

unequal : (m name : Bytes) → m ≢ name → equal m name ≡ false
unequal m name h = elim (Bool-cases (equal m name)) [
  | inl e ↦ absurd (h ((equal_iff m name).0 e))
  | inr e ↦ e
]

unnamed : (m : Bytes) → All (λ name. m ≢ name) mode_names → unfmt_modes m ≡ invalid
unnamed m (a, (b, (c, (d, (e, _))))) =
    simp (unequal m _ a, unequal m _ b, unequal m _ c, unequal m _ d, unequal m _ e) refl

-- Without orders nothing is sent; otherwise they are carried out, or broken off at a failure.
abbrev pub IsAnswer : Device → Option (List Order) → Run → Type 0
IsAnswer D none run = (run.code ≡ negsuc 1) × (run.history ≡ [])
IsAnswer D (some orders) run =
    ((run.code ≡ pos 0) × Carried D orders [] run.history)
    ⊎ ((run.code ≡ negsuc 1) × Broken D orders [] run.history)

finish-IsAnswer :
    (D : Device) (orders : List Order) (i : ℤ) (r : ℤ × History)
    → Follows D IsZero orders [] r
    → IsAnswer D (some orders) (finish i r)
finish-IsAnswer D orders i (pos n, h) (inl (e, c)) = inl (e, c)
finish-IsAnswer D orders i (pos n, h) (inr (n', b)) = absurd n'
finish-IsAnswer D orders i (negsuc n, h) (inl (e, c)) = ground arith
finish-IsAnswer D orders i (negsuc n, h) (inr (n', b)) = inr (refl, b)

pakets-IsAnswer :
    (D : Device) (i : ℤ) (pkts : List AmplifierPaket)
    → IsAnswer D (some (orders_of pkts)) (finish i (pakets_write D pkts []))
pakets-IsAnswer D i pkts =
    finish-IsAnswer D (orders_of pkts) i (pakets_write D pkts []) (pakets_write-Follows D pkts [])

effect-IsAnswer :
    (D : Device) (i : ℤ) (e : Effect)
    → IsAnswer D (some (effect_orders e)) (finish i (amp_effect D e []))
effect-IsAnswer D i e =
    subst (λ orders. IsAnswer D (some orders) (finish i (amp_effect D e [])))
      (effect_pakets-effect_orders e) (pakets-IsAnswer D i (effect_pakets e))

parse_effect_lem :
    (sscanf_u : Bytes → Option ℕ) (arg : Bytes) (rest : List Bytes) {n : ℕ}
    → sscanf_u arg ≡ some n
    → parse_effect sscanf_u (arg ∷ rest) ≡ effect_of n
parse_effect_lem sscanf_u arg rest s =
    ap (λ (o : Option ℕ). elim o [ none ↦ none | some k ↦ effect_of k ]) s

parse_effect-none :
    (sscanf_u : Bytes → Option ℕ) (arg : Bytes) (rest : List Bytes)
    → sscanf_u arg ≡ none
    → parse_effect sscanf_u (arg ∷ rest) ≡ none
parse_effect-none sscanf_u arg rest s =
    ap (λ (o : Option ℕ). elim o [ none ↦ none | some k ↦ effect_of k ]) s

no-IsAnswer :
    (host : Host) (i : ℤ) (p : Option Effect)
    → p ≡ none
    → IsAnswer (host.device i) none (finish i (apply (host.device i) p))
no-IsAnswer host i p e =
    subst (λ q. IsAnswer (host.device i) none (finish i (apply (host.device i) q))) (sym e)
      (refl, refl)

-- The answer to arguments that stand for these orders.
with_mode-IsAnswer :
    (host : Host) (i : ℤ) {m : Bytes} {rest : List Bytes} {orders : Option (List Order)}
    → Asks host.sscanf_u m rest orders
    → IsAnswer (host.device i) orders (with_mode host i (unfmt_modes m) rest)
unfolding equal
with_mode-IsAnswer host i asks_init = effect-IsAnswer (host.device i) i bass_boost
with_mode-IsAnswer host i (asks_effect {arg} {rest} e s) =
    subst
      (λ p. IsAnswer (host.device i) (some (effect_orders e)) (finish i (apply (host.device i) p)))
      (sym (parse_effect_lem host.sscanf_u arg rest s ∙ effect_of-number_of e))
      (effect-IsAnswer (host.device i) i e)
with_mode-IsAnswer host i no_argument = (refl, refl)
with_mode-IsAnswer host i (no_number {arg} {rest} s) =
    no-IsAnswer host i _ (parse_effect-none host.sscanf_u arg rest s)
with_mode-IsAnswer host i (no_effect {arg} {rest} n s h) =
    no-IsAnswer host i _ (parse_effect_lem host.sscanf_u arg rest s ∙ effect_of_beyond n h)
with_mode-IsAnswer host i asks_mute = pakets-IsAnswer (host.device i) i (output_disable_pkt ∷ [])
with_mode-IsAnswer host i asks_unmute = pakets-IsAnswer (host.device i) i (output_enable_pkt ∷ [])
with_mode-IsAnswer host i asks_recovery = pakets-IsAnswer (host.device i) i recovery_pkts
with_mode-IsAnswer host i (no_mode {m} n) = rw (unnamed m n) (refl, refl)

-- Once an amplifier is opened, main returns 0 after exactly the transactions that the arguments stand
-- for, and -2 without any for a mode or an effect that does not exist, or with those up to the first
-- that fails.
pub amp_main-IsAnswer :
    (host : Host) (m : Bytes) (rest : List Bytes) (i : ℤ) (orders : Option (List Order))
    → open_amplifier host ≡ some i
    → Asks host.sscanf_u m rest orders
    → IsAnswer (host.device i) orders (amp_main host (m ∷ rest))
unfolding amp_main
amp_main-IsAnswer host m rest i orders e asks = rw e (with_mode-IsAnswer host i asks)
