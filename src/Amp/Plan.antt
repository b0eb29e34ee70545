-- ===== src/Amp/Plan.antt =====
-- What the transactions of clevo_amp_control.c are to be, as a list of orders that stops at the first
-- failure.
use tjtools.Common.{ℕ, ◌≡◌, refl, subst, List, [], ◌∷◌, ◌++◌, map, ◌⊎◌, inl, inr}
use tjtools.Common.Int.{ℤ, pos, negsuc}
use tjtools.Amp.{
  wrote, write_failed, got, read_failed, History, Device, AmplifierPaket, read, written, or_fail,
  rewrite_one, rewrite_all, prolog_write, write_all, pakets_write,
}

-- Write a value to a register, or read the register and write the byte back.
pub data Order : Type 0 where
  put : ℕ → ℕ → Order
  keep : ℕ → Order

abbrev pub order_of : AmplifierPaket → Order
order_of pkt = put pkt.cmd pkt.val

abbrev pub prolog : List Order
prolog = put 0x0a 0x41 ∷ keep 0x04 ∷ keep 0x09 ∷ []

abbrev pub orders_of : List AmplifierPaket → List Order
orders_of pkts = prolog ++ map order_of pkts

abbrev pub IsNegative : ℤ → Type 0
IsNegative (pos n) = ⊥
IsNegative (negsuc n) = Unit

abbrev pub IsFine : ℤ → Type 0
IsFine (pos n) = Unit
IsFine (negsuc n) = ⊥

abbrev pub IsZero : ℤ → Type 0
IsZero r = r ≡ pos 0

module _ (D : Device) where
  -- The device gives this byte.
  abbrev pub Reads : History → ℕ → ℕ → Type 0
  Reads h cmd val = (n : ℕ) × (D.on_read h cmd ≡ (pos n, val))

  -- All orders are carried out, one after the other, and nothing else.
  abbrev pub Carried : List Order → History → History → Type 0
  Carried [] h h' = h' ≡ h
  Carried (put cmd val ∷ orders) h h' = Carried orders (wrote cmd val ∷ h) h'
  Carried (keep cmd ∷ orders) h h' =
      (val : ℕ) × Reads h cmd val × Carried orders (wrote cmd val ∷ got cmd val ∷ h) h'

  -- An order fails, those before it are carried out, and nothing follows it.
  abbrev pub Broken : List Order → History → History → Type 0
  Broken [] h h' = ⊥
  Broken (put cmd val ∷ orders) h h' =
      (h' ≡ write_failed cmd val ∷ h) ⊎ Broken orders (wrote cmd val ∷ h) h'
  Broken (keep cmd ∷ orders) h h' =
      (h' ≡ read_failed cmd ∷ h)
      ⊎ ((val : ℕ) × Reads h cmd val
          × ((h' ≡ write_failed cmd val ∷ got cmd val ∷ h)
              ⊎ Broken orders (wrote cmd val ∷ got cmd val ∷ h) h'))

  abbrev pub Follows : (ℤ → Type 0) → List Order → History → ℤ × History → Type 0
  Follows Done orders h r =
      (Done r.0 × Carried orders h r.1) ⊎ (IsNegative r.0 × Broken orders h r.1)

  Broken-more :
      (orders more : List Order) (h h' : History)
      → Broken orders h h'
      → Broken (orders ++ more) h h'
  Broken-more [] more h h' b = absurd b
  Broken-more (put cmd val ∷ orders) more h h' (inl e) = inl e
  Broken-more (put cmd val ∷ orders) more h h' (inr b) =
      inr (Broken-more orders more (wrote cmd val ∷ h) h' b)
  Broken-more (keep cmd ∷ orders) more h h' (inl e) = inl e
  Broken-more (keep cmd ∷ orders) more h h' (inr (val, r, inl e)) = inr (val, r, inl e)
  Broken-more (keep cmd ∷ orders) more h h' (inr (val, r, inr b)) =
      inr (val, r, inr (Broken-more orders more (wrote cmd val ∷ got cmd val ∷ h) h' b))

  Carried-then :
      (Done : ℤ → Type 0) (orders more : List Order) (h m : History) (r : ℤ × History)
      → Carried orders h m
      → Follows Done more m r
      → Follows Done (orders ++ more) h r
  Carried-then Done [] more h m r e f = subst (λ k. Follows Done more k r) e f
  Carried-then Done (put cmd val ∷ orders) more h m r c f =
      elim (Carried-then Done orders more (wrote cmd val ∷ h) m r c f) [
        | inl f' ↦ inl f'
        | inr (n, b) ↦ inr (n, inr b)
      ]
  Carried-then Done (keep cmd ∷ orders) more h m r (val, reads, c) f =
      elim (Carried-then Done orders more (wrote cmd val ∷ got cmd val ∷ h) m r c f) [
        | inl (e, c') ↦ inl (e, (val, reads, c'))
        | inr (n, b) ↦ inr (n, inr (val, reads, inr b))
      ]

  pub Broken-append :
      (orders more : List Order) (h h' : History)
      → Broken (orders ++ more) h h'
      → Broken orders h h' ⊎ ((m : History) × Carried orders h m × Broken more m h')
  Broken-append [] more h h' b = inr (h, refl, b)
  Broken-append (put cmd val ∷ orders) more h h' (inl e) = inl (inl e)
  Broken-append (put cmd val ∷ orders) more h h' (inr b) =
      elim (Broken-append orders more (wrote cmd val ∷ h) h' b) [
        | inl b' ↦ inl (inr b')
        | inr later ↦ inr later
      ]
  Broken-append (keep cmd ∷ orders) more h h' (inl e) = inl (inl e)
  Broken-append (keep cmd ∷ orders) more h h' (inr (val, r, inl e)) = inl (inr (val, r, inl e))
  Broken-append (keep cmd ∷ orders) more h h' (inr (val, r, inr b)) =
      elim (Broken-append orders more (wrote cmd val ∷ got cmd val ∷ h) h' b) [
        | inl b' ↦ inl (inr (val, r, inr b'))
        | inr (m, c, b') ↦ inr (m, (val, r, c), b')
      ]

  -- A part that returns at its failure, and what follows it.
  or_fail-Follows :
      (Done : ℤ → Type 0) (orders more : List Order) (h : History) (code : ℤ) (r : ℤ × History)
      (k : History → ℤ × History)
      → IsNegative code
      → Follows IsFine orders h r
      → ((m : History) → Follows Done more m (k m))
      → Follows Done (orders ++ more) h (or_fail code r k)
  or_fail-Follows Done orders more h code (pos n, m) k neg (inl (e, c)) after =
      Carried-then Done orders more h m (k m) c (after m)
  or_fail-Follows Done orders more h code (negsuc n, m) k neg (inr (_, b)) after =
      inr (neg, Broken-more orders more h m b)
  or_fail-Follows Done orders more h code (pos n, m) k neg (inr (n', b)) after = absurd n'
  or_fail-Follows Done orders more h code (negsuc n, m) k neg (inl (n', c)) after = absurd n'

  written-Follows :
      (ret : ℤ) (cmd val : ℕ) (h : History)
      → Follows IsFine (put cmd val ∷ []) h (ret, written ret cmd val ∷ h)
  written-Follows (pos n) cmd val h = inl (tt, refl)
  written-Follows (negsuc n) cmd val h = inr (tt, inl refl)

  -- What is read is what is written next.
  written_back :
      (ret : ℤ) (cmd val : ℕ) (h : History)
      → Reads h cmd val
      → Follows IsFine (keep cmd ∷ []) h (ret, written ret cmd val ∷ got cmd val ∷ h)
  written_back (pos n) cmd val h reads = inl (tt, (val, reads, refl))
  written_back (negsuc n) cmd val h reads = inr (tt, inr (val, reads, inl refl))

  rewritten :
      (cmd : ℕ) (h : History) (r : ℤ × ℕ)
      → D.on_read h cmd ≡ r
      → Follows IsFine (keep cmd ∷ []) h (rewrite_one D cmd (r.0, r.1, read r.0 cmd r.1 ∷ h))
  rewritten cmd h (pos n, val) e =
      written_back (D.on_write (got cmd val ∷ h) cmd val) cmd val h (n, e)
  rewritten cmd h (negsuc n, val) e = inr (tt, inl refl)

  rewrite_all-Follows :
      (cmds : List ℕ) (h : History) → Follows IsFine (map keep cmds) h (rewrite_all D cmds h)
  rewrite_all-Follows [] h = inl (tt, refl)
  rewrite_all-Follows (cmd ∷ cmds) h =
      or_fail-Follows IsFine (keep cmd ∷ []) (map keep cmds) h (negsuc 1) _ _ tt
        (rewritten cmd h (D.on_read h cmd) refl) (rewrite_all-Follows cmds)

  write_all-Follows :
      (pkts : List AmplifierPaket) (h : History)
      → Follows IsZero (map order_of pkts) h (write_all D pkts h)
  write_all-Follows [] h = inl (refl, refl)
  write_all-Follows (pkt ∷ pkts) h =
      or_fail-Follows IsZero (order_of pkt ∷ []) (map order_of pkts) h (negsuc 1) _ _ tt
        (written-Follows (D.on_write h pkt.cmd pkt.val) pkt.cmd pkt.val h) (write_all-Follows pkts)

  prolog_write-Follows : (h : History) → Follows IsFine prolog h (prolog_write D h)
  unfolding prolog_write
  prolog_write-Follows h =
      or_fail-Follows IsFine (put 0x0a 0x41 ∷ []) (keep 0x04 ∷ keep 0x09 ∷ []) h (negsuc 0) _ _ tt
        (written-Follows (D.on_write h 0x0a 0x41) 0x0a 0x41 h)
        (rewrite_all-Follows (0x04 ∷ 0x09 ∷ []))

  -- Pakets are written after the prolog: the result is 0 when all is carried out, and negative when a
  -- transaction fails, after which there is none.
  pub pakets_write-Follows :
      (pkts : List AmplifierPaket) (h : History)
      → Follows IsZero (orders_of pkts) h (pakets_write D pkts h)
  unfolding pakets_write
  pakets_write-Follows pkts h =
      or_fail-Follows IsZero prolog (map order_of pkts) h (negsuc 0) _ _ tt (prolog_write-Follows h)
        (write_all-Follows pkts)
