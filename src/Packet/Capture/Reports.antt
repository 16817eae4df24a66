-- ===== src/Packet/Capture/Reports.antt =====
-- The reports of `run_mode2` and `run_mode3` and the packets that pass their checks.
use file_system_homework.Base.{
  ℕ, zero, suc, ◌≤◌, ◌≡◌, ◌∙◌, ap, refl, List, [], ◌∷◌, Option, some, none, length, take,
  Option-cases, inl, inr,
}
use file_system_homework.Packet.Frames.{buffer_size, receive, length-receive}
use file_system_homework.Packet.Capture.{
  Received, failed, frame, Report, accept_mode2, accept_mode3, report_loop, run_mode2, run_mode3,
}
use file_system_homework.Packet.Capture.ReadsFrame.{
  ReadsFrame, accept_mode2-ReadsFrame, accept_mode3-ReadsFrame,
}

-- The reports of the frames that pass, each read off the frame alone, up to the first failure.
pub accepted : (ℕ → List ℕ → Option Report) → List Received → List Report
accepted accept [] = []
accepted accept (failed ∷ rest) = []
accepted accept (frame bytes ∷ rest) = elim (accept (length bytes) bytes) [
  | none ↦ accepted accept rest
  | some r ↦ r ∷ accepted accept rest
]

abbrev pub Fits : List Received → Type 0
Fits [] = Unit {0}
Fits (failed ∷ rest) = Fits rest
Fits (frame bytes ∷ rest) = (length bytes ≤ buffer_size) × Fits rest

report_loop-accepted :
    (accept : ℕ → List ℕ → Option Report)
    → ReadsFrame accept
    → (left : ℕ) (buffer : List ℕ) (events : List Received) → length buffer ≡ buffer_size
    → Fits events
    → (report_loop accept left buffer events).reports ≡ take left (accepted accept events)
unfolding report_loop accepted
report_loop-accepted accept reads zero buffer events l f = refl
report_loop-accepted accept reads (suc left) buffer [] l f = refl
report_loop-accepted accept reads (suc left) buffer (failed ∷ rest) l f = refl
report_loop-accepted accept reads (suc left) buffer (frame bytes ∷ rest) l f =
    elim (Option-cases (accept (length bytes) bytes)) [
      | inl e ↦
          rw (reads bytes buffer (f.0) l ∙ e, e, report_loop, accepted)
            (report_loop-accepted accept reads (suc left) (receive bytes buffer) rest
              (length-receive bytes buffer ∙ l) (f.1))
      | inr (r, e) ↦
          rw (reads bytes buffer (f.0) l ∙ e, e, report_loop, accepted)
            (ap (◌∷◌ r) (
              report_loop-accepted accept reads left (receive bytes buffer) rest
                (length-receive bytes buffer ∙ l) (f.1)))
    ]

-- For frames that fit the buffer, `run_mode2` reports the first five UDP packets to this host's address,
-- each as it stands in its own frame, up to the first failure of `recvfrom`.
pub run_mode2-accepted :
    (my_ip : ℕ) (buffer : List ℕ) (events : List Received)
    → length buffer ≡ buffer_size
    → Fits events
    → (run_mode2 my_ip buffer events).reports ≡ take 5 (accepted (accept_mode2 my_ip) events)
unfolding run_mode2
run_mode2-accepted my_ip buffer events l f =
    report_loop-accepted (accept_mode2 my_ip) (accept_mode2-ReadsFrame my_ip) 5 buffer events l f

-- For frames that fit the buffer, `run_mode3` reports the first five TCP packets that are neither from
-- this host's address nor to it, each as it stands in its own frame, up to the first failure of
-- `recvfrom`.
pub run_mode3-accepted :
    (my_ip : ℕ) (buffer : List ℕ) (events : List Received)
    → length buffer ≡ buffer_size
    → Fits events
    → (run_mode3 my_ip buffer events).reports ≡ take 5 (accepted (accept_mode3 my_ip) events)
unfolding run_mode3
run_mode3-accepted my_ip buffer events l f =
    report_loop-accepted (accept_mode3 my_ip) (accept_mode3-ReadsFrame my_ip) 5 buffer events l f
