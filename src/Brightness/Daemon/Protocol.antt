-- ===== src/Brightness/Daemon/Protocol.antt =====
-- Datagrams against the specification of the wire format.
use tjtools.Common.{
  ◌++◌, ℕ, sym, of_le-lt, ap, ◌∙◌, ◌≢◌, Option-cases, zero, suc, ◌+◌, ◌≤◌, ◌<◌, ◌^◌, ◌≡◌, refl,
  Bool, true, List, [], ◌∷◌, Bytes, ◌⊎◌, inl, inr, if◌then◌else◌, le32, of_le, of_le-le32,
  le32-of_le, All, IsByte, length, some, none, arith,
}
use tjtools.Common.Int.{ℤ, to_int, to_unsigned, to_int-to_unsigned, to_int-IsInt, IsInt}
use tjtools.Brightness.Backlight.{Io, BacklightContext, Call, Exit, returned, thrown, undefined}
use mathlib.Core.Option.{Option, some-injective}
use native.Mathlib.Decide.{ℕ_discrete}
use tjtools.Brightness.Frame.{
  CommandType, Entry, failed, frame_len, handling, dispatch, handle_frame, command_type, frame_type,
  frame_value,
}
use tjtools.Brightness.Frame
use tjtools.Brightness.Frame.Commands.{
  Command, set_to, modify_by, save, restore, powersave, IsValid, encode, execute,
}
use tjtools.Brightness.Daemon.{Daemon, datagram, received, bytes_received, receive, step, settle}

-- The type that a command's frame carries.
abbrev pub type_of : Command → CommandType
type_of (set_to _) = Frame.set_state
type_of (modify_by _) = Frame.modify_state
type_of save = Frame.save_state
type_of restore = Frame.restore_state
type_of powersave = Frame.set_powersave

to_unsigned-lt : (i : ℤ) → IsInt i → to_unsigned i < 2 ^ 32
to_unsigned-lt i h = ground arith

word_of_change : (v : ℤ) → IsInt v → to_int (of_le (le32 (to_unsigned v))) ≡ v
word_of_change v h = rw (of_le-le32 (to_unsigned v) (to_unsigned-lt v h)) (to_int-to_unsigned v h)

dispatch-encode :
    (io : Io) (cmd : Command) (ctx : BacklightContext)
    → IsValid cmd
    → dispatch (type_of cmd) io (received (encode cmd)) ctx ≡ execute io cmd ctx
unfolding dispatch received
dispatch-encode io (set_to value) ctx v = rw (of_le-le32 value v)
dispatch-encode io (modify_by value) ctx v = rw (word_of_change value v)
dispatch-encode io save ctx v = refl
dispatch-encode io restore ctx v = refl
dispatch-encode io powersave ctx v = refl

receive-encode :
    (io : Io) (cmd : Command) (d : Daemon)
    → receive io (bytes_received (encode cmd)) (received (encode cmd)) d
      ≡ settle
          (if d.verbose then handling (type_of cmd) ∷ [] else [])
          (dispatch (type_of cmd) io (received (encode cmd)) d.context)
          d
unfolding receive received handle_frame command_type
receive-encode io (set_to value) d = refl
receive-encode io (modify_by value) d = refl
receive-encode io save d = refl
receive-encode io restore d = refl
receive-encode io powersave d = refl

-- The lines of the journal for a command that ends in this way, the last line first.
abbrev pub reported : Bool → CommandType → Exit → List Entry
reported verbose ct (thrown e) = failed e ∷ (if verbose then handling ct ∷ [] else [])
reported verbose ct _ = if verbose then handling ct ∷ [] else []

abbrev pub loses : Exit → Bool → Bool
loses undefined lost = true
loses _ lost = lost

settle-reported :
    (ct : CommandType) (call : Call) (d : Daemon)
    → settle (if d.verbose then handling ct ∷ [] else []) call d ≡ record d {
      context = call.1;
      lost = loses call.0 d.lost;
      journal = reported d.verbose ct call.0 ++ d.journal;
    }
settle-reported ct (returned, ctx) d = refl
settle-reported ct (thrown e, ctx) d = refl
settle-reported ct (undefined, ctx) d = refl

armed_reads :
    (io : Io) (sent : Bytes) (d : Daemon)
    → d.armed ≡ true
    → step d (datagram io sent) ≡ receive io (bytes_received sent) (received sent) d
unfolding step
armed_reads io sent d armed = ground arith

-- A daemon that reads its socket carries out each command that is sent to it, and goes on. If it is
-- verbose, it logs the type of the command; behind that, it logs the exception that the command has
-- thrown, if any. Only undefined behaviour loses the daemon.
pub step-encode :
    (io : Io) (cmd : Command) (d : Daemon)
    → IsValid cmd
    → d.armed ≡ true
    → let call = execute io cmd d.context in
      step d (datagram io (encode cmd)) ≡ record d {
        context = call.1;
        lost = loses call.0 d.lost;
        journal = reported d.verbose (type_of cmd) call.0 ++ d.journal;
      }
step-encode io cmd d v armed =
    let entries = if d.verbose then handling (type_of cmd) ∷ [] else [] in
    let reads : step d (datagram io (encode cmd))
        ≡ receive io (bytes_received (encode cmd)) (received (encode cmd)) d =
      armed_reads io (encode cmd) d armed in
    reads
    ∙ (receive-encode io cmd d
        ∙ ap (λ call. settle entries call d) (dispatch-encode io cmd d.context v)
        ∙ settle-reported (type_of cmd) (execute io cmd d.context) d)

abbrev pub IsIgnored : Io → Bytes → Daemon → Type 0
IsIgnored io sent d = (step d (datagram io sent)).context ≡ d.context

abbrev expected_len : CommandType → ℕ
expected_len Frame.set_state = 4
expected_len Frame.modify_state = 4
expected_len Frame.save_state = 0
expected_len Frame.restore_state = 0
expected_len Frame.set_powersave = 0

expected_len-le : (ct : CommandType) → expected_len ct ≤ 4
expected_len-le Frame.set_state = omega arith
expected_len-le _ = omega arith

dispatch_malformed :
    (ct : CommandType) (io : Io) (buffer : Bytes) (ctx : BacklightContext)
    → frame_len buffer ≢ expected_len ct
    → ((dispatch ct io buffer ctx).1 ≡ ctx) × ((dispatch ct io buffer ctx).0 ≢ undefined)
unfolding dispatch
dispatch_malformed Frame.set_state io buffer ctx h = ground arith
dispatch_malformed _ io buffer ctx h = ground arith

settle_context :
    (entries : List Entry) (call : Call) (d : Daemon) → (settle entries call d).context ≡ call.1
settle_context entries (returned, ctx) d = refl
settle_context entries (thrown _, ctx) d = refl
settle_context entries (undefined, ctx) d = refl

receive_bad_length :
    (io : Io) (n : ℕ) (buffer : Bytes) (d : Daemon)
    → frame_len buffer + 2 ≢ n
    → (receive io n buffer d).context ≡ d.context
unfolding receive
receive_bad_length io n buffer d h = ground arith

receive_bad_frame :
    (io : Io) (n : ℕ) (buffer : Bytes) (d : Daemon)
    → (handle_frame io d.verbose buffer d.context).1.1 ≡ d.context
    → (receive io n buffer d).context ≡ d.context
unfolding receive
receive_bad_frame io n buffer d h =
    let frame = handle_frame io d.verbose buffer d.context in
    ground (arith, settle_context frame.0 frame.1 d)

abbrev number : CommandType → ℕ
number Frame.set_state = 0
number Frame.modify_state = 1
number Frame.save_state = 2
number Frame.restore_state = 3
number Frame.set_powersave = 4

number-command_type : (t : ℕ) {ct : CommandType} → command_type t ≡ some ct → t ≡ number ct
unfolding command_type
number-command_type zero e = ap number (some-injective _ _ e)
number-command_type (suc zero) e = ap number (some-injective _ _ e)
number-command_type (suc (suc zero)) e = ap number (some-injective _ _ e)
number-command_type (suc (suc (suc zero))) e = ap number (some-injective _ _ e)
number-command_type (suc (suc (suc (suc zero)))) e = ap number (some-injective _ _ e)
number-command_type (suc (suc (suc (suc (suc t))))) e = cc

abbrev HoldsCommand : Bytes → Type 0
HoldsCommand sent = (cmd : Command) × IsValid cmd × (sent ≡ encode cmd)

to_unsigned-to_int : (w : ℕ) → w < 2 ^ 32 → to_unsigned (to_int w) ≡ w
to_unsigned-to_int w h = ground arith

-- The command that a frame of the right length holds.
frame_command :
    (ct : CommandType) (payload : Bytes)
    → length payload ≡ expected_len ct
    → All IsByte payload
    → HoldsCommand (number ct ∷ expected_len ct ∷ payload)
frame_command Frame.set_state (a ∷ b ∷ c ∷ d ∷ []) n h =
    (set_to (of_le (a ∷ b ∷ c ∷ d ∷ [])), of_le-lt a b c d h, rw (le32-of_le a b c d h))
frame_command Frame.modify_state (a ∷ b ∷ c ∷ d ∷ []) n h =
    let small = of_le-lt a b c d h in
    let word = of_le (a ∷ b ∷ c ∷ d ∷ []) in
    (
      modify_by (to_int word),
      to_int-IsInt word small,
      rw (to_unsigned-to_int word small, le32-of_le a b c d h),
    )
frame_command Frame.save_state [] n h = (save, tt, refl)
frame_command Frame.restore_state [] n h = (restore, tt, refl)
frame_command Frame.set_powersave [] n h = (powersave, tt, refl)
frame_command _ _ n h = absurd (omega arith)

handle_frame_malformed :
    (io : Io) (verbose : Bool) (buffer : Bytes) (ctx : BacklightContext)
    → ((ct : CommandType)
        → command_type (frame_type buffer) ≡ some ct
        → frame_len buffer ≢ expected_len ct)
    → (handle_frame io verbose buffer ctx).1.1 ≡ ctx
unfolding handle_frame
handle_frame_malformed io verbose buffer ctx h =
    elim (Option-cases (command_type (frame_type buffer))) [
      | inl e ↦ rw (e, handle_frame)
      | inr (ct, e) ↦ rw (e, handle_frame) (dispatch_malformed ct io buffer ctx (h ct e)).0
    ]

step_context :
    (io : Io) (sent : Bytes) (d : Daemon)
    → (receive io (bytes_received sent) (received sent) d).context ≡ d.context
    → IsIgnored io sent d
unfolding step
step_context io sent d h = ground arith

received_long :
    (io : Io) (t l : ℕ) (payload : Bytes) (d : Daemon)
    → All IsByte payload
    → l + 2 ≡ bytes_received (t ∷ l ∷ payload)
    → (call : Option CommandType) → command_type t ≡ call
    → HoldsCommand (t ∷ l ∷ payload) ⊎ IsIgnored io (t ∷ l ∷ payload) d
unfolding received
received_long io t l payload d b e none c = inr (
    step_context io _ d
      (receive_bad_frame io _ _ d (handle_frame_malformed io d.verbose _ d.context λ ct c'. cc)))
received_long io t l payload d b e (some ct) c = elim (ℕ_discrete l (expected_len ct)) [
  | no ne ↦ inr (
      step_context io _ d (
        receive_bad_frame io _ _ d (
          handle_frame_malformed io d.verbose _ d.context
            λ ct' c' x. ne (x ∙ ap expected_len (some-injective _ _ (sym c' ∙ c))))))
  | yes same ↦ inl (
      rw (same, number-command_type t c)
        (frame_command ct payload (omega (arith, expected_len-le ct)) b))
]

-- A datagram of bytes is the frame of a command with values that fit their fields, or it leaves
-- the brightness, the node and the storage file as they are.
pub step-encode_or_IsIgnored :
    (io : Io) (sent : Bytes) (d : Daemon)
    → All IsByte sent
    → ((cmd : Command) × IsValid cmd × (sent ≡ encode cmd)) ⊎ IsIgnored io sent d
unfolding received
step-encode_or_IsIgnored io [] d b =
    inr (step_context io [] d (receive_bad_length io 0 _ d (omega arith)))
step-encode_or_IsIgnored io (t ∷ []) d b =
    inr (step_context io (t ∷ []) d (receive_bad_length io 1 _ d (omega arith)))
step-encode_or_IsIgnored io (t ∷ l ∷ payload) d b =
    elim (ℕ_discrete (l + 2) (bytes_received (t ∷ l ∷ payload))) [
      | no ne ↦ inr (step_context io (t ∷ l ∷ payload) d (receive_bad_length io _ _ d ne))
      | yes e ↦ received_long io t l payload d b.1.1 e (command_type t) refl
    ]
