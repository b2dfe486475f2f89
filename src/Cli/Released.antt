-- ===== src/Cli/Released.antt =====
-- That `dial` leaves nothing open when it fails.
use ptyrelay.Base.{
  Bool, true, false, Bytes, [], ◌∷◌, some, ◌⊎◌, inl, inr, ◌≡◌, refl, ◌∙◌, Bool-cases, Option-cases,
  Sum-cases,
}
use ptyrelay.Base.Step.{Step, ◌>>=◌, and_then, lift}
use ptyrelay.Bytes.Text.{trim_space}
use ptyrelay.Bytes.Split.{is_empty}
use ptyrelay.Cli.{
  CommonFlags, DialError, Endpoint, Maker, chosen, teardown, torn_down, installed, or_home, routed,
  with_session, with_channel, dial, known_level, wrapped, install_failed, home_failed, in_home,
}

-- How the interface treats the one channel that a program opens: a transport that fails is not open, the probe
-- closes nothing, and closing the channel closes it, whatever is done to the session.
pub record Tracks {W C E : Type 0} (maker : Maker W C E) : Type 0 where
  pub is_open : W → Bool
  pub open_fails :
      (to : Endpoint) (w : W) (e : E)
      → is_open w ≡ false
      → (maker.open_endpoint to w).1 ≡ inl e
      → is_open (maker.open_endpoint to w).0 ≡ false
  pub opens :
      (to : Endpoint) (w : W) (ch : C)
      → (maker.open_endpoint to w).1 ≡ inr ch
      → is_open (maker.open_endpoint to w).0 ≡ true
  pub closes : (ch : C) (w : W) → is_open (maker.close_channel ch w) ≡ false
  pub probe_keeps :
      (ch : C) (path : Bytes) (w : W) → is_open (maker.probe_router ch path w) ≡ is_open w
  pub installs_keep :
      (ch : C) (dir path : Bytes) (w : W) → is_open (maker.install ch dir path w).0 ≡ is_open w
  pub embedded_keeps :
      (put : C → Bytes → W → W × (E ⊎ Bytes)) (ch : C) (path : Bytes) (w : W)
      → maker.install_embedded ≡ some put
      → is_open (put ch path w).0 ≡ is_open w
  pub home_keeps : (ch : C) (w : W) → is_open (maker.run_home ch w).0 ≡ is_open w

-- The channel is open if there is a connection, and closed if there is an error.
abbrev pub Settled : {W A E : Type 0} → (W → Bool) → W × (E ⊎ A) → Type 0
Settled is_open (w, inl e) = is_open w ≡ false
Settled is_open (w, inr a) = is_open w ≡ true

module _ {W C E : Type 0} (maker : Maker W C E) (tracks : Tracks maker) where
  torn_down-Settled :
      {A : Type 0} (ch : C) (w : W) (r : DialError E ⊎ A)
      → tracks.is_open w ≡ true
      → Settled tracks.is_open (torn_down maker ch w r)
  unfolding teardown
  torn_down-Settled ch w (inl e) live = tracks.closes ch (maker.close_session ch w)
  torn_down-Settled ch w (inr a) live = live

  routed-Settled :
      (ch : C) (w : W) (r : DialError E ⊎ Bytes)
      → Settled tracks.is_open (w, r)
      → Settled tracks.is_open (and_then (routed maker ch) w r)
  routed-Settled ch w (inl e) h = h
  routed-Settled ch w (inr path) h = tracks.probe_keeps ch path w ∙ h

  abbrev Kept : {A : Type 0} → W → W × A → Type 0
  Kept w (u, r) = tracks.is_open u ≡ tracks.is_open w

  wrapped-Kept :
      {A : Type 0} (wrap : E → DialError E) (w : W) (p : W × (E ⊎ A))
      → Kept w p
      → Kept w (wrapped maker wrap p)
  wrapped-Kept wrap w (u, inl e) h = h
  wrapped-Kept wrap w (u, inr a) h = h

  and_then-Kept :
      {A B : Type 0} (f : A → Step W (DialError E) B) (w u : W) (r : DialError E ⊎ A)
      → Kept w (u, r)
      → ((a : A) → Kept u (f a u))
      → Kept w (and_then f u r)
  and_then-Kept f w u (inl e) h k = h
  and_then-Kept f w u (inr a) h k = k a ∙ h

  installed-Kept : (c : CommonFlags) (ch : C) (w : W) → Kept w (installed maker c ch w)
  unfolding installed
  installed-Kept c ch w = elim (Bool-cases c.do_install) [
    | inr off ↦ simp (off) refl
    | inl on ↦ elim (Bool-cases (is_empty c.provider_dir)) [
      | inr given ↦
          simp (on, given)
            (wrapped-Kept install_failed w (maker.install ch c.provider_dir c.agent_path w)
              (tracks.installs_keep ch c.provider_dir c.agent_path w))
      | inl absent ↦ elim (Option-cases maker.install_embedded) [
        | inl none_built ↦ simp (on, absent, none_built) refl
        | inr (put, built) ↦
            simp (on, absent, built)
              (wrapped-Kept install_failed w (put ch c.agent_path w)
                (tracks.embedded_keeps put ch c.agent_path w built))
      ]
    ]
  ]

  or_home-Kept : (ch : C) (path : Bytes) (w : W) → Kept w (or_home maker ch path w)
  or_home-Kept ch [] w =
      let p = wrapped maker home_failed (maker.run_home ch w) in
      and_then-Kept (λ out. lift (in_home maker (trim_space out))) w p.0 p.1
        (wrapped-Kept home_failed w (maker.run_home ch w) (tracks.home_keeps ch w)) (λ a. refl)
  or_home-Kept ch (x ∷ path) w = refl

  with_session-Settled :
      (c : CommonFlags) (ch : C) (w : W)
      → tracks.is_open w ≡ true
      → Settled tracks.is_open (with_session maker c ch w)
  with_session-Settled c ch w live = elim (Bool-cases c.no_agent) [
    | inl alone ↦ simp (alone) live
    | inr both ↦
        let p = (installed maker c ch >>= or_home maker ch) w in
        let q = installed maker c ch w in
        let kept =
          and_then-Kept (or_home maker ch) w q.0 q.1 (installed-Kept c ch w)
            (λ path. or_home-Kept ch path q.0) in
        let settled = torn_down-Settled ch p.0 p.1 (kept ∙ live) in
        let t = torn_down maker ch p.0 p.1 in simp (both) (routed-Settled ch t.0 t.1 settled)
  ]

  with_channel-Settled :
      (c : CommonFlags) (ch : C) (w : W)
      → tracks.is_open w ≡ true
      → Settled tracks.is_open (with_channel maker c ch w)
  with_channel-Settled c ch w live = elim (Bool-cases (known_level c.log_level)) [
    | inl known ↦ simp (known) (with_session-Settled c ch w live)
    | inr bad ↦ simp (bad) (tracks.closes ch w)
  ]

  -- `dial` leaves the transport open exactly if it returns a connection: with an error, at whatever stage, nothing stays
  -- open, where nothing was open before. A transport that fails is not open, a close of the channel closes it, and the
  -- other calls leave it as it is.
  pub dial-Settled :
      (c : CommonFlags) (w : W) → tracks.is_open w ≡ false → Settled tracks.is_open (dial maker c w)
  unfolding dial
  dial-Settled c w shut = elim (Sum-cases (chosen {E = E} c)) [
    | inl (e, refused) ↦ rw refused shut
    | inr (to, fits) ↦ elim (Sum-cases (maker.open_endpoint to w).1) [
      | inl (e, failed) ↦ rw (fits, failed) (tracks.open_fails to w e shut failed)
      | inr (ch, done) ↦
          rw (fits, done)
            (with_channel-Settled c ch (maker.open_endpoint to w).0 (tracks.opens to w ch done))
    ]
  ]
