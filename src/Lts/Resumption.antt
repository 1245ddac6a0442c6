-- ===== src/Lts/Resumption.antt =====
-- A suspended process, from the request of its client to the queue of the resumed ones.
use sisop_2012_2c.Shared.{
  ℕ, zero, suc, ◌≡◌, refl, ap, List, [], ◌∷◌, ◌++◌, some, CString, codes, arith, ◌∙◌,
}
use sisop_2012_2c.Shared.Outcome.{ok, ◌>>=◌}
use sisop_2012_2c.Commons.{Collections}
use sisop_2012_2c.Doubles.{Doubles}
use sisop_2012_2c.Process.{ProcessImage, enqueue, sem_trywait}
use sisop_2012_2c.System.{System}
use sisop_2012_2c.Wire.{Stream, serialization, read_stream}
use sisop_2012_2c.Wire.RoundTrip.{read_stream-serialization}
use sisop_2012_2c.Lts.Search.{Others, remove_fd-append}
use sisop_2012_2c.Lts.{request, restore_suspended, remove_fd, resume, read_request, lts_event}

-- "Reanudar", which PI sends
abbrev pub resume_text : CString
resume_text = codes "Reanudar"

module _ {D : Type 0} ⦃c : Collections⦄ ⦃d : Doubles D⦄ (s : System D)
    (before after : List (ProcessImage D)) (image : ProcessImage D) where
  -- What should become of the request, by what is left of MMP.
  abbrev pub resumption : ℕ → System D
  resumption zero = s
  resumption (suc mmp) = record s {
    mmp_sem = mmp;
    lps = before ++ after;
    lpr = enqueue s.lpr image;
    sts_in_empty = suc s.sts_in_empty;
  }

  restored :
      s.lps ≡ before ++ image ∷ after
      → Others (λ p. p.clientfd) image.clientfd before
      → restore_suspended s.lps image.clientfd ≡ ok (some image, before ++ after)
  unfolding restore_suspended
  restored suspended others =
      let fd_of = λ (p : ProcessImage D). p.clientfd in
      ap (λ (l : List (ProcessImage D)). remove_fd fd_of l image.clientfd) suspended
      ∙ remove_fd-append fd_of before image after others

  event :
      (mmp : ℕ) (bytes buffer rest : List ℕ)
      → s.mmp_sem ≡ mmp
      → read_stream (some bytes) ≡ ok (some (record { type = b'R'; payload = buffer }), some rest)
      → s.lps ≡ before ++ image ∷ after
      → Others (λ p. p.clientfd) image.clientfd before
      → lts_event s (request image.clientfd (some bytes)) ≡ ok (resumption mmp, [])
  unfolding lts_event read_request resume
  event zero bytes buffer rest full read suspended others = simp (lts_event, sem_trywait, full)
  event (suc mmp) bytes buffer rest free read suspended others =
      rw (free, lts_event) (rw (read, ◌>>=◌) (rw (restored suspended others, ◌>>=◌) refl))

  -- The request of a client to resume its suspended process, as PI sends it and whatever follows it:
  -- where MMP is used up nothing happens; otherwise the first process of the client leaves LPS, where
  -- the others keep their order, it is in LPR, STS is told, and it takes its place of MMP.
  pub request-resumes :
      (rest : List ℕ)
      → s.lps ≡ before ++ image ∷ after
      → Others (λ p. p.clientfd) image.clientfd before
      → (stream : Stream) × (serialization b'R' resume_text ≡ ok stream)
        × (lts_event s (request image.clientfd (some (stream.bytes ++ rest)))
            ≡ ok (resumption s.mmp_sem, []))
  request-resumes rest suspended others =
      let (stream, sent, l, buffer, read, same) =
        read_stream-serialization b'R' resume_text rest (omega arith) (omega arith) in
      (stream, sent, event s.mmp_sem (stream.bytes ++ rest) buffer rest refl read suspended others)
