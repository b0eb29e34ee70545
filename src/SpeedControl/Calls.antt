-- ===== src/SpeedControl/Calls.antt =====
-- The calls that a run makes.
use tjtools.Common.{
  ◌*◌, ◌^◌, ℕ, suc, ◌≤◌, ◌⊎◌, inl, inr, Bytes, replicate, ◌++◌, Bool-cases, leb, ◌<◌, ◌≡◌, refl, ap,
  ◌∙◌, true, false, List, [], ◌∷◌, arith, some, if◌then◌else◌,
}
use tjtools.Common.Result.{Result, ok, err}
use tjtools.SpeedControl.{
  SpeedError, invalid_speed, reported_success, reported_retry, reported_failure, dumped, dump,
  open_failed, max_speed, CommandContext, Drive, Action, opened, closed, packet_sent,
  speed_selected, set_streaming, issue, speed_main, streaming, packet, descriptor_bytes,
}
use tjtools.SpeedControl.Descriptor.{wanted, streaming-wanted}

-- How often a run closes the descriptor that it has opened.
abbrev pub closings : List Action → ℕ
closings [] = 0
closings (closed ∷ actions) = suc (closings actions)
closings (_ ∷ actions) = closings actions

abbrev pub last : Action → List Action → Action
last a [] = a
last _ (b ∷ actions) = last b actions

-- The speeds that a run selects in the old way.
abbrev pub selections : List Action → List ℕ
selections [] = []
selections (speed_selected n ∷ actions) = n ∷ selections actions
selections (_ ∷ actions) = selections actions

-- The packets that a run sends, with their parameters.
abbrev pub packets : List Action → List (Bytes × Bytes)
packets [] = []
packets (packet_sent p data' ∷ actions) = (p, data') ∷ packets actions
packets (_ ∷ actions) = packets actions

-- SET_STREAMING with 28 bytes of parameters.
abbrev pub set_streaming_packet : ℕ → Bytes
set_streaming_packet op = op ∷ (replicate 9 0 ++ 28 ∷ 0 ∷ [])

issue_sends :
    (drive : Drive) (ctx : CommandContext)
    → drive.opens ≡ true
    → (actions : List Action) × (issue drive ctx ≡ ok actions)
      × (packets actions ≡ (packet ctx, descriptor_bytes ctx.perf_desc) ∷ [])
      × (selections actions ≡ (if drive.takes_packet then [] else ctx.speed ∷ []))
      × (closings actions ≡ 1)
      × (last opened actions ≡ closed)
unfolding issue
issue_sends drive ctx o =
    let sent = packet_sent (packet ctx) (descriptor_bytes ctx.perf_desc) in
    let retry : List Action → List Action =
      λ rest. opened ∷ sent ∷ reported_retry ∷ speed_selected ctx.speed ∷ rest in
    elim (Bool-cases drive.takes_packet) [
      | inl p ↦ (
        opened ∷ sent ∷ reported_success ∷ closed ∷ [],
        simp (o, p) refl,
        refl,
        simp p refl,
        refl,
        refl,
      )
      | inr p ↦ elim (Bool-cases drive.takes_speed) [
        | inl s ↦ (
          retry (reported_success ∷ closed ∷ []),
          simp (o, p, s) refl,
          refl,
          simp p refl,
          refl,
          refl,
        )
        | inr s ↦ (
          retry (reported_failure ∷ dumped (dump drive.sense_text ctx) ∷ closed ∷ []),
          simp (o, p, s) refl,
          refl,
          simp p refl,
          refl,
          refl,
        )
      ]
    ]

issue_shut :
    (drive : Drive) (ctx : CommandContext) → drive.opens ≡ false → issue drive ctx ≡ err open_failed
unfolding issue
issue_shut drive ctx o = simp o refl

-- The rest of a run.
abbrev after_streaming : Drive → Result SpeedError CommandContext → ℕ × List Action
after_streaming drive (err _) = (3, [])
after_streaming drive (ok ctx) = elim (issue drive ctx) [
  | err _ ↦ (3, [])
  | ok actions ↦ (0, actions)
]

refuses :
    (op speed : ℕ) (ctx : CommandContext)
    → leb max_speed speed ≡ true
    → set_streaming op speed ctx ≡ err invalid_speed
unfolding set_streaming
refuses op speed ctx large = ground arith

accepts :
    (op speed : ℕ) (ctx : CommandContext)
    → leb max_speed speed ≡ false
    → set_streaming op speed ctx ≡ ok (streaming op speed)
unfolding set_streaming
accepts op speed ctx small = ground arith

run_refused :
    (op speed : ℕ) (drive : Drive) (ctx : CommandContext)
    → leb max_speed speed ≡ true
    → speed_main op
        (record { help = false; device_is_block = some true; speed = some speed })
        drive
        ctx
      ≡ (3, [])
unfolding speed_main
run_refused op speed drive ctx large = ap (after_streaming drive) (refuses op speed ctx large)

-- What a run is for a speed that is accepted, by the answer of issue.
run_accepted :
    (op speed : ℕ) (drive : Drive) (ctx : CommandContext) (answer : Result SpeedError (List Action))
    → leb max_speed speed ≡ false
    → issue drive (streaming op speed) ≡ answer
    → speed_main op
        (record { help = false; device_is_block = some true; speed = some speed })
        drive
        ctx
      ≡ elim answer [ err _ ↦ (3, []) | ok actions ↦ (0, actions) ]
unfolding speed_main
run_accepted op speed drive ctx answer small e =
    ap (after_streaming drive) (accepts op speed ctx small)
    ∙ ap
        (λ (r : Result SpeedError (List Action)). elim r [
          | err _ ↦ (3, [])
          | ok actions ↦ (0, actions)
        ])
        e

-- Given a block device that opens and a speed below the limit, the program exits with the code of a
-- success, whatever the drive answers; the rate fits a word; it has sent one packet, with the parameters that are wanted for
-- the speed, has selected the speed in the old way exactly if the packet was refused, and has closed
-- the descriptor once, as its last action. At any other speed, or if the device does not open, it exits
-- with 3 and has sent nothing.
pub speed_main_cases :
    (op speed : ℕ) (drive : Drive) (ctx : CommandContext)
    → let run =
        speed_main op
          (record { help = false; device_is_block = some true; speed = some speed })
          drive
          ctx in
      ((speed < max_speed)
        × (177 * speed < 2 ^ 32)
        × (drive.opens ≡ true)
        × (run.0 ≡ 0)
        × (packets run.1 ≡ (set_streaming_packet op, wanted speed) ∷ [])
        × (selections run.1 ≡ (if drive.takes_packet then [] else speed ∷ []))
        × (closings run.1 ≡ 1)
        × (last opened run.1 ≡ closed))
      ⊎ (((max_speed ≤ speed) ⊎ (drive.opens ≡ false)) × (run ≡ (3, [])))
unfolding speed_main set_streaming
speed_main_cases op speed drive ctx = elim (Bool-cases (leb max_speed speed)) [
  | inl large ↦ inr (inl (ground arith), run_refused op speed drive ctx large)
  | inr small ↦ elim (Bool-cases drive.opens) [
    | inr shut ↦ inr (
      inr shut,
      run_accepted op speed drive ctx _ small (issue_shut drive (streaming op speed) shut),
    )
    | inl o ↦
        let h : speed < max_speed = ground arith in
        let (actions, e, sent, selected, once, end) = issue_sends drive (streaming op speed) o in
        let ran = run_accepted op speed drive ctx _ small e in
        inl (
          h,
          omega (arith, h),
          o,
          ap (λ r. r.0) ran,
          ap (λ r. packets r.1) ran
              ∙ sent
              ∙ ap (λ d. (set_streaming_packet op, d) ∷ []) (streaming-wanted op speed h),
          ap (λ r. selections r.1) ran ∙ selected,
          ap (λ r. closings r.1) ran ∙ once,
          ap (λ r. last opened r.1) ran ∙ end,
        )
  ]
]
