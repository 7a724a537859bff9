-- ===== src/Endpoint/Transfer.antt =====
-- What scheduling a transfer does, and in which order.
use imxrt_usbd.Common.{
  ℕ, zero, suc, ◌+◌, ◌%◌, ◌^◌, ◌<◌, ◌≡◌, refl, ap, ◌∙◌, ◌⊎◌, inl, inr, arith, Bool, true, false,
  ◌||◌, List, ◌∷◌, some, if◌then◌else◌, ==_iff, done,
}
use imxrt_usbd.Machine.{Reg, Access, rd, wr, td_store, qh_store, endptprime}
use imxrt_usbd.Cache.Cover.{
  cleans, reg_log, last_td, last_qh, written_back, lines_of, clean-IsCleaned,
}
use imxrt_usbd.Td
use imxrt_usbd.Td.{Td}
use imxrt_usbd.Td.Laws as TdLaws
use imxrt_usbd.Td.Pages.{page, page_list, set_buffer_total, set_buffer-pages}
use imxrt_usbd.Qh
use imxrt_usbd.Platform.{Platform, put, petb, perb, ok}
use imxrt_usbd.Platform.Waits.{polled, Settles, wait_zero-Settles}
use imxrt_usbd.Endpoint.{
  Endpoint, Session, by_direction, prepare_td, schedule_transfer, check_errors,
}
use imxrt_usbd.Endpoint.Status.{check_errors_lem}

module _ (p : Platform) where
  -- Nothing in the way of a transfer: the buffer does not reach the last pages of the address space,
  -- nor does the stack, and the endpoint has a bit in the registers.
  pub record IsReady (s : Session) : Type 0 where
    pub low_buffer : page s.ep.buffer.ptr 4 < 2 ^ 32
    pub low_stack : (log : List Access) → p.self_slot log + 96 < 2 ^ 32
    pub has_bit : p.index s.ep.address < 32

  -- The descriptor that the controller is given.
  pub record IsPrepared (size : ℕ) (td : Td) : Type 0 where
    pub fields : TdLaws.Holds p.ral td (size % 2 ^ 15) 1 Td.active
    pub last_size : td.last_transfer_size ≡ size
    pub ends : td.next ≡ 1

  prepare_td-IsPrepared :
      (size : ℕ) (ep : Endpoint)
      → page ep.buffer.ptr 4 < 2 ^ 32
      → (td : Td) × (prepare_td p size ep ≡ done td)
        × IsPrepared size td
        × (0 < size → td.buffer_pointers ≡ page_list ep.buffer.ptr)
  unfolding prepare_td Td.set_active Td.set_interrupt_on_complete Td.set_terminate
  prepare_td-IsPrepared size ep low =
      let ended = Td.set_terminate ep.td in
      let (td, ran) = set_buffer_total p.ral p.checks ep.buffer.ptr size ended low in
      let (sized, last, next) =
        TdLaws.set_buffer-Holds p.ral ended _ _ _ (refl, refl, refl) p.checks ep.buffer.ptr size
          ran in
      let noted = Td.set_interrupt_on_complete p.ral true td in
      (
        Td.set_active p.ral noted,
        rw ran refl,
        record {
          fields =
              TdLaws.set_active-Holds p.ral noted _ _ _
                (TdLaws.set_interrupt_on_complete-Holds p.ral td _ _ _ sized true);
          last_size = last;
          ends = next;
        },
        λ pos. set_buffer-pages p.ral p.checks ep.buffer.ptr size ended pos low ran,
      )

  -- The endpoint's bit is written to ENDPTPRIME.
  abbrev pub primed_log : Session → List Access → List Access
  primed_log s before =
      wr endptprime (put p (by_direction p s.ep petb perb) (2 ^ p.index s.ep.address) 0) ∷ before

  -- What a session `s` is scheduled to become, with the accesses before the endpoint is primed.
  pub record IsScheduled (size : ℕ) (s s' : Session) : Type 0 where
    pub prepared : IsPrepared size s'.ep.td
    pub no_error : check_errors p s'.ep ≡ ok tt
    pub linked : s'.ep.qh.overlay.next ≡ s.ep.td_at % 2 ^ 32
    pub kept : s'.ep ≡ record (s.ep) { td = s'.ep.td; qh = s'.ep.qh }
    pub points : 0 < size → s'.ep.td.buffer_pointers ≡ page_list s.ep.buffer.ptr
    pub same_packet : s'.ep.qh.capabilities ≡ s.ep.qh.capabilities
    pub same_mem : s'.world.mem ≡ s.world.mem
    pub before : List Access
    pub shown_td : last_td s.ep.td_at before ≡ some (Td.words s'.ep.td)
    pub shown_qh : last_qh s.ep.qh_at before ≡ some (Qh.words s'.ep.qh)
    -- The lines that are cleaned are those of the address of `self` in the two calls.
    pub td_call : List Access
    pub qh_call : List Access
    pub cleaned :
        (b : ℕ)
        → cleans before b ≡ (
            lines_of (p.self_slot qh_call) 64 b
            || (lines_of (p.self_slot td_call) 32 b || cleans s.world.log b))
    pub reads : ℕ
    pub cleaned_only : reg_log before ≡ reg_log s.world.log
    pub settled : p.answer (polled p endptprime (primed_log s before) reads) endptprime ≡ 0
    pub primed : s'.world.log ≡ polled p endptprime (primed_log s before) (suc reads)
    pub written :
        (b : ℕ)
        → (written_back s'.world.log b ≡ written_back s.world.log b)
          ⊎ (written_back s'.world.log b ≡ some (s.world.mem b))

  written_back-polled :
      (reg : Reg) (log : List Access) (n b : ℕ)
      → written_back (polled p reg log n) b ≡ written_back log b
  written_back-polled reg log zero b = refl
  written_back-polled reg log (suc n) b =
      written_back-polled reg (rd reg (p.answer log reg) ∷ log) n b

  pub schedule_transfer-IsScheduled :
      (fuel size : ℕ) (s : Session)
      → IsReady s
      → Settles p endptprime fuel
      → (s' : Session) × (schedule_transfer p fuel size s ≡ done (tt, s')) × IsScheduled size s s'
  unfolding schedule_transfer Qh.overlay_mut Td.set_next Td.clear_status Td.clean_invalidate_dcache
      Qh.clean_invalidate_dcache
  schedule_transfer-IsScheduled fuel size s ready settles =
      let (td, made, prep, pages) = prepare_td-IsPrepared size s.ep ready.low_buffer in
      let log0 = td_store s.ep.td_at (Td.words td) ∷ s.world.log in
      let (log1, c1, k1) =
        clean-IsCleaned p.checks (p.self_slot log0) 32 (record (s.world) { log = log0 })
          (omega (arith, ready.low_stack log0)) in
      let qh1 = record (s.ep.qh) { overlay = Td.set_next s.ep.td_at s.ep.qh.overlay } in
      let qh2 = record (s.ep.qh) { overlay = Td.clear_status p.ral qh1.overlay } in
      let log1' = qh_store s.ep.qh_at (Qh.words qh2) ∷ qh_store s.ep.qh_at (Qh.words qh1) ∷ log1 in
      let (log2, c2, k2) =
        clean-IsCleaned p.checks (p.self_slot log1') 64 (record (s.world) { log = log1' })
          (omega (arith, ready.low_stack log1')) in
      let (m, waited, zeroed) =
        wait_zero-Settles p endptprime fuel (record (s.world) { log = primed_log s log2 })
          settles in
      (
        record {
          ep = record (s.ep) { td = td; qh = qh2 };
          world = record (s.world) { log = polled p endptprime (primed_log s log2) (suc m) };
        },
        ground (arith, made, c1, c2, waited),
        record {
          prepared = prep;
          no_error = check_errors_lem p _ ∙ rw prep.fields.2 refl;
          linked = refl;
          kept = refl;
          points = pages;
          same_packet = refl;
          same_mem = refl;
          before = log2;
          shown_td =
              k2.same_td s.ep.td_at
              ∙ k1.same_td s.ep.td_at
              ∙ ground (arith, (==_iff s.ep.td_at s.ep.td_at).1 refl);
          shown_qh = k2.same_qh s.ep.qh_at ∙ ground (arith, (==_iff s.ep.qh_at s.ep.qh_at).1 refl);
          td_call = log0;
          qh_call = log1';
          cleaned =
              λ b. k2.covers b ∙ ap (λ c. lines_of (p.self_slot log1') 64 b || c) (k1.covers b);
          reads = m;
          cleaned_only = k2.same_regs ∙ k1.same_regs;
          settled = zeroed;
          primed = refl;
          written = λ b.
              last_written (lines_of (p.self_slot log0) 32 b) (lines_of (p.self_slot log1') 64 b) b
                log1 log2 (k1.writes_back b) (k2.writes_back b) m;
        },
      )
    where
      last_written :
          (b b' : Bool) (at : ℕ) (log1 log2 : List Access)
          → written_back log1 at
            ≡ (if b then some (s.world.mem at) else written_back s.world.log at)
          → written_back log2 at ≡ (if b' then some (s.world.mem at) else written_back log1 at)
          → (m : ℕ)
          → (written_back (polled p endptprime (primed_log s log2) (suc m)) at
              ≡ written_back s.world.log at)
            ⊎ (written_back (polled p endptprime (primed_log s log2) (suc m)) at
                ≡ some (s.world.mem at))
      last_written b true at log1 log2 e e' m =
          inr (written_back-polled endptprime (primed_log s log2) (suc m) at ∙ e')
      last_written true false at log1 log2 e e' m =
          inr (written_back-polled endptprime (primed_log s log2) (suc m) at ∙ e' ∙ e)
      last_written false false at log1 log2 e e' m =
          inl (written_back-polled endptprime (primed_log s log2) (suc m) at ∙ e' ∙ e)
