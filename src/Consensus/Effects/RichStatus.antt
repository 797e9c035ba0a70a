-- ===== src/Consensus/Effects/RichStatus.antt =====
-- src/consensus.rs: `handle_rich_status`, on each way out of it.
use Prim.Native.String.{String}
use consensus_bft.Prelude.{
  ℕ, ◌≡◌, refl, Bool, false, Option, none, some, [], inl, inr, arith, Outcome, ok, err,
  if◌then◌else◌, Bool-cases,
}
use consensus_bft.Prelude.Exec.{Exec, pure, ◌>>=◌, ◌>>◌}
use consensus_bft.Prelude.Exec.Runs.{guard_end, bind_end}
use consensus_bft.Error.{ConsensusError, obsolete_msg}
use consensus_bft.Wal.Log.{Wal, save, set_height}
use consensus_bft.Wal.Disk.{IoError}
use consensus_bft.Wal.Log.Append.{NeverFails}
use consensus_bft.Wal.Log.Works.{Succeeds-save, Succeeds-set_height}
use consensus_bft.Consensus.Steps.Frame.{Agree-refl}
use consensus_bft.Prelude.Words.{Bytes, bytes_eq}
use consensus_bft.BftCore as bft
use consensus_bft.Types.{Status}
use consensus_bft.Consensus.Outside.{Outside}
use consensus_bft.Consensus.State.{Consensus, Method, save_json, log_json}
use consensus_bft.Consensus.Steps.Frame.{Agree, Agree-trans}
use consensus_bft.Prelude.{ℕ, ltb, inl, inr, ◌⊎◌, ap, subst, sym, ◌∙◌, none, [], Option}
use consensus_bft.Prelude.Words.{add_u64}
use consensus_bft.Types.Authority.{update_authority}
use consensus_bft.Types.Convert.{to_bft_status}
use consensus_bft.Consensus.State.{log_json, save_json, on_wal, log_type_rich_status}
use consensus_bft.Consensus.Handlers.{
  handle_rich_status, new_authority, goto_new_height, enter_height,
}

module _ {F : Type 0} (x : Outside F) where
  -- The state at the height after a status: the old authorities are kept, what is known of blocks goes.
  abbrev pub installed : Consensus x → Status → Consensus x
  installed s rs = record s {
    authority = update_authority s.authority s.height rs.authority_list;
    verified_block = [];
    block_origin_cache = [];
    block = none;
    height = add_u64 rs.height 1;
  }

  pub Agree-log_json :
      (b : Bool) (h t : ℕ) (j : Option Bytes) (n : String) (s : Consensus x)
      → Agree x s (log_json x b h t j n s).1
  unfolding log_json save_json on_wal ◌>>=◌
  Agree-log_json b h t j n s = ground arith

  Agree-installed :
      (rs : Status) (s t : Consensus x) → Agree x s t → Agree x (installed s rs) (installed t rs)
  Agree-installed rs s t a = record {
    height = refl;
    authority =
        ap (λ z. update_authority z t.height rs.authority_list) a.authority
        ∙ ap (λ z. update_authority s.authority z rs.authority_list) a.height;
    votes = a.votes;
    power = a.power;
    runs = a.runs;
  }

  -- What follows the log in `handle_rich_status`.
  install : Status → Method x bft.Status
  install rs = do new_authority x rs; goto_new_height x rs.height; pure (to_bft_status rs)

  Agree-install : (rs : Status) (s : Consensus x) → Agree x (installed s rs) (install rs s).1
  unfolding install new_authority goto_new_height enter_height ◌>>=◌ on_wal
  Agree-install rs s = ground arith

  log_and_install : Status → Bool → Method x bft.Status
  log_and_install rs b = do
    log_json x b rs.height log_type_rich_status (x.json_status.to_string rs) "Status"
    install rs

  log_and_install_cases :
      (rs : Status) (b : Bool) (s : Consensus x)
      → Agree x s (log_and_install rs b s).1 ⊎ Agree x (installed s rs) (log_and_install rs b s).1
  unfolding log_and_install
  log_and_install_cases rs b s =
      let logged =
        log_json x b rs.height log_type_rich_status (x.json_status.to_string rs) "Status" in
      let same =
        Agree-log_json b rs.height log_type_rich_status (x.json_status.to_string rs) "Status" s in
      elim (bind_end logged (λ _. install rs) s) [
        | inl (_, e) ↦ inr (
            subst (λ z. Agree x (installed s rs) z.1) (sym e)
              (Agree-trans x _ _ _ (Agree-installed rs s (logged s).1 same)
                (Agree-install rs (logged s).1)))
        | inr e ↦ inl (subst (Agree x s) (sym e) same)
      ]

  -- A status either leaves the height, the authorities, the votes and the power as they are, or it is
  -- of this height at least and takes the engine to the height after it, with its authorities.
  pub handle_rich_status_cases :
      (rs : Status) (b : Bool) (s : Consensus x)
      → let t = (handle_rich_status x rs b s).1 in
        Agree x s t ⊎ ((ltb rs.height s.height ≡ false) × Agree x (installed s rs) t)
  unfolding handle_rich_status install log_and_install ◌>>=◌
  handle_rich_status_cases rs b s =
      elim (guard_end (ltb rs.height s.height) obsolete_msg (log_and_install rs b) s) [
        | inl (c, e) ↦ elim (log_and_install_cases rs b s) [
          | inl a ↦ inl (subst (λ z. Agree x s z.1) (sym e) a)
          | inr a ↦ inr (c, subst (λ z. Agree x (installed s rs) z.1) (sym e) a)
        ]
        | inr (c, e) ↦ inl (subst (λ z. Agree x s z.1) (sym e) (Agree-refl x s))
      ]

  -- What the engine does with a status on a log that works: an old one is refused.
  abbrev pub answer_of : Consensus x → Status → Outcome ConsensusError bft.Status
  answer_of s rs = if ltb rs.height s.height then err obsolete_msg else ok (to_bft_status rs)

  abbrev pub state_after : Consensus x → Status → Wal → Consensus x
  state_after s rs w = if ltb rs.height s.height then s else record (installed s rs) { wal_log = w }

  on_wal_works :
      {A : Type 0} (m : Exec Wal IoError A) (n : String) (s : Consensus x) (a : A)
      → (m s.wal_log).0 ≡ ok a
      → on_wal x m n s ≡ (ok tt, record s { wal_log = (m s.wal_log).1 })
  unfolding on_wal
  on_wal_works m n s a e = rw (e, on_wal) refl

  log_json_works :
      (b : Bool) (h t : ℕ) (j : Bytes) (n : String) (s : Consensus x)
      → NeverFails s.wal_log.disk.device
      → (w : Wal) × (log_json x b h t (some j) n s ≡ (ok tt, record s { wal_log = w }))
        × NeverFails w.disk.device
  unfolding log_json save_json ◌>>=◌
  log_json_works b h t j n s works =
      let (a, e, q) = (Succeeds-save h t j).at s.wal_log (record { works = works; now = refl }) in
      elim (Bool-cases x.wal_on) [
        | inr off ↦ (s.wal_log, rw (off, log_json) refl, works)
        | inl on ↦ elim (Bool-cases b) [
          | inr skip ↦ (s.wal_log, rw (on, skip, log_json) refl, works)
          | inl need ↦ (
            (save h t j s.wal_log).1,
            rw (on, need, log_json) (on_wal_works (save h t j) n s a e),
            q.works,
          )
        ]
      ]

  install_works :
      (rs : Status) (s : Consensus x)
      → NeverFails s.wal_log.disk.device
      → (w : Wal) × (install rs s
          ≡ (ok (to_bft_status rs), record (installed s rs) { wal_log = w }))
        × (w.current_height ≡ add_u64 rs.height 1)
  unfolding install new_authority goto_new_height enter_height ◌>>=◌
  install_works rs s works =
      let h = add_u64 rs.height 1 in
      let (e, q) = Succeeds-set_height h s.wal_log works in
      (
        (set_height h s.wal_log).1,
        rw (on_wal_works (set_height h) "CreateNewHeight" (installed s rs) tt e) refl,
        q.now,
      )

  -- On a device that works, for a status that can be written as JSON: a status below the present
  -- height is refused and changes nothing. Any other is answered by its form for the core, the log is
  -- at the height after the status (wrapped at a `u64`), and all that has changed beside the log is
  -- that the engine is at this height too, that the authorities are updated by the status and the
  -- height before, and that the verdicts, the blocks and the block at hand are gone.
  pub handle_rich_status_works :
      (rs : Status) (b : Bool) (s : Consensus x) (j : Bytes)
      → NeverFails s.wal_log.disk.device
      → x.json_status.to_string rs ≡ some j
      → let (r, t) = handle_rich_status x rs b s in
        (r ≡ answer_of s rs)
        × (t ≡ state_after s rs t.wal_log)
        × (t.wal_log.current_height
            ≡ (if ltb rs.height s.height then s.wal_log.current_height else add_u64 rs.height 1))
  unfolding handle_rich_status install ◌>>=◌
  handle_rich_status_works rs b s j works written = elim (Bool-cases (ltb rs.height s.height)) [
    | inl old ↦ rw (old, handle_rich_status) (refl, refl, refl)
    | inr new ↦
        let (w, e, q) = log_json_works b rs.height log_type_rich_status j "Status" s works in
        let (v, f, now) = install_works rs (record s { wal_log = w }) q in
        let ends : handle_rich_status x rs b s
            ≡ (ok (to_bft_status rs), record (installed s rs) { wal_log = v }) =
          rw (new, handle_rich_status, written, e) f in
        rw (ends, new) (refl, refl, now)
  ]
