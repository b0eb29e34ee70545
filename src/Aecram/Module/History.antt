-- ===== src/Aecram/Module/History.antt =====
-- What holds of the loaded module after any sequence of calls.
use tjtools.Common.{
  Option, ◌⊎◌, ℕ, ◌≡◌, ◌≢◌, refl, sym, ap, ◌∙◌, Bool, true, false, [], none, some, length, arith,
  inl, inr, Bool-cases,
}
use tjtools.Common.Int.{ℤ, pos, negsuc}
use tjtools.Aecram.Port.{Controller, config_default}
use tjtools.Aecram.Port.Memory.{IsController}
use tjtools.Aecram.Driver.{
  AecramSession, Answers, Call, AecramData, aecram_open, aecram_unlocked_ioctl,
}
use tjtools.Aecram.Driver.Safety.{IsCall, IsSession, Keeps, aecram_unlocked_ioctl-Keeps}
use tjtools.Aecram.Module.{
  find, remove, replace, Module, aecram_init, aecram_exit, open_file, aecram_close, ioctl_file,
  Step, load, unload, opened, closed, called, Reach, start, later,
}
use tjtools.Aecram.Module.Files.{
  Sessions, find-Sessions, remove-Sessions, replace-Sessions, length-remove, length-replace,
  find_nil,
}

none-some : (s : AecramSession) → none ≢ some s
none-some s = λ e. cc

module _ (C : Controller) where
  -- The buffer has its size, each open file has a session with the default configuration or none, and the
  -- sessions that are allocated are those of the open files.
  pub record IsModule (m : Module C) : Type 0 where
    pub buffer_size : length m.driver.buffer ≡ 64
    pub sessions : Sessions IsSession m.files
    pub balanced : m.allocated ≡ length m.files
    pub closed_when_unloaded : m.loaded ≡ false → m.files ≡ []

  aecram_init-IsModule :
      (registered : ℤ) (m : Module C) → IsModule m → IsModule (aecram_init C registered m).1
  unfolding aecram_init
  aecram_init-IsModule (pos n) m v = record {
    buffer_size = refl;
    sessions = v.sessions;
    balanced = v.balanced;
    closed_when_unloaded = λ e. absurd (cc);
  }
  aecram_init-IsModule (negsuc n) m v = record {
    buffer_size = refl;
    sessions = v.sessions;
    balanced = v.balanced;
    closed_when_unloaded = v.closed_when_unloaded;
  }

  open_file-IsModule :
      (filp : ℕ) (allocates : Bool) (m : Module C)
      → m.loaded ≡ true
      → IsModule m
      → IsModule (open_file C filp allocates m)
  unfolding open_file aecram_open
  open_file-IsModule filp false m l v = v
  open_file-IsModule filp true m l v = record {
    buffer_size = v.buffer_size;
    sessions = (inl refl, v.sessions);
    balanced = omega (arith, v.balanced);
    closed_when_unloaded = λ e. absurd (cc);
  }

  aecram_close-IsModule :
      (filp : ℕ) (s : AecramSession) (m : Module C)
      → find filp m.files ≡ some s
      → IsModule m
      → IsModule (aecram_close C filp m)
  unfolding aecram_close
  aecram_close-IsModule filp s m e v = record {
    buffer_size = v.buffer_size;
    sessions = remove-Sessions IsSession filp m.files v.sessions;
    balanced = omega (arith, v.balanced, length-remove filp m.files s e);
    closed_when_unloaded =
        λ u. ap (remove filp) (v.closed_when_unloaded u) ∙ (unfold remove in refl);
  }

  loaded_when_open :
      (filp : ℕ) (s : AecramSession) (m : Module C)
      → IsModule m
      → find filp m.files ≡ some s
      → m.loaded ≡ true
  loaded_when_open filp s m v e = elim (Bool-cases m.loaded) [
    | inl loaded ↦ loaded
    | inr unloaded ↦
        absurd (none-some s (sym (find_nil filp m.files (v.closed_when_unloaded unloaded)) ∙ e))
  ]

  module _ (law : IsController C config_default) where
    ioctl_file-IsModule :
        (filp : ℕ) (a : Answers) (call : Call) (s : AecramSession) (m : Module C)
        → find filp m.files ≡ some s
        → IsCall call
        → IsModule m
        → IsModule (ioctl_file C filp a call s m)
    unfolding ioctl_file
    ioctl_file-IsModule filp a call s m e c v =
        let is_session = find-Sessions IsSession filp m.files s v.sessions e in
        let o = aecram_unlocked_ioctl C a call s m.driver in
        let (fine, size, session, same) =
          aecram_unlocked_ioctl-Keeps C law a call s m.driver c is_session v.buffer_size in
        record {
          buffer_size = size;
          sessions = replace-Sessions IsSession filp o.session m.files session v.sessions;
          balanced = v.balanced ∙ sym (length-replace filp o.session m.files);
          closed_when_unloaded = λ u.
              ap (replace filp o.session) (v.closed_when_unloaded u) ∙ (unfold replace in refl);
        }

    Step-IsModule : {m n : Module C} → Step C m n → IsModule m → IsModule n
    Step-IsModule {m} (load registered e) v = aecram_init-IsModule registered m v
    Step-IsModule {m} (unload l e) v =
        unfold aecram_exit in
        record {
          buffer_size = refl;
          sessions = v.sessions;
          balanced = v.balanced;
          closed_when_unloaded = λ u. e;
        }
    Step-IsModule {m} (opened filp allocates l e) v = open_file-IsModule filp allocates m l v
    Step-IsModule {m} (closed filp {s} e) v = aecram_close-IsModule filp s m e v
    Step-IsModule {m} (called filp a call {s} e c) v = ioctl_file-IsModule filp a call s m e c v

    Reach-IsModule : {d : AecramData C} {m : Module C} → Reach C d m → IsModule m
    Reach-IsModule start = record {
      buffer_size = refl;
      sessions = tt;
      balanced = refl;
      closed_when_unloaded = λ u. refl;
    }
    Reach-IsModule (later r s) = Step-IsModule s (Reach-IsModule r)

    open_file-cases :
        (filp : ℕ) (a : Answers) (call : Call) (m : Module C) (o : Option AecramSession)
        → find filp m.files ≡ o
        → IsModule m
        → IsCall call
        → (find filp m.files ≡ none)
          ⊎ ((s : AecramSession) × (find filp m.files ≡ some s)
              × (m.loaded ≡ true)
              × Keeps C law call m.driver (aecram_unlocked_ioctl C a call s m.driver))
    open_file-cases filp a call m none e v c = inl e
    open_file-cases filp a call m (some s) e v c = inr (
      s,
      e,
      loaded_when_open filp s m v e,
      aecram_unlocked_ioctl-Keeps C law a call s m.driver c
          (find-Sessions IsSession filp m.files s v.sessions e) v.buffer_size,
    )

    -- After any sequence of loads, unloads, opens, closes and well-formed calls: as many sessions are
    -- allocated as files are open, so that none leaks; the module is loaded, or no file is open and no
    -- session is allocated; and a descriptor has no open file, or the module is loaded and each further
    -- well-formed call on it stays inside the buffer and changes no byte of the RAM outside the range
    -- of a write.
    pub Reach-safe :
        {d : AecramData C} {m : Module C} (filp : ℕ) (a : Answers) (call : Call)
        → Reach C d m
        → IsCall call
        → (m.allocated ≡ length m.files)
          × ((m.loaded ≡ true) ⊎ ((m.loaded ≡ false) × (m.files ≡ []) × (m.allocated ≡ 0)))
          × ((find filp m.files ≡ none)
              ⊎ ((s : AecramSession) × (find filp m.files ≡ some s)
                  × (m.loaded ≡ true)
                  × Keeps C law call m.driver (aecram_unlocked_ioctl C a call s m.driver)))
    Reach-safe {d} {m} filp a call r c =
        let v = Reach-IsModule r in
        (
          v.balanced,
          elim (Bool-cases m.loaded) [
            | inl l ↦ inl l
            | inr u ↦
                let none_open = v.closed_when_unloaded u in
                inr (u, none_open, v.balanced ∙ ap length none_open)
          ],
          open_file-cases filp a call m (find filp m.files) refl v c,
        )
