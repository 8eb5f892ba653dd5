-- ===== src/LibEspStlink/Tests.antt =====
-- Runs of libespstlink.c, and its theorems at concrete inputs.
use stm8flash.Common.{ℕ, ◌≡◌, refl, List, [], ◌∷◌, arith, length, ◌<◌}
use stm8flash.Programmer.{Run, ok}
use stm8flash.Programmer.Ends.{Ends}
use stm8flash.LibEspStlink.{Link, EspError, error_check, espstlink_fetch_version, reported}
use stm8flash.LibEspStlink.Answer.{Never, IsAnswer, error_check-IsAnswer}
use stm8flash.LibEspStlink.Errors.{IsReported, error_check-Reports}
use stm8flash.LibEspStlink.Dongle.{Dongle, dongle, waiting, dongle-Delivers, dongle_silent, link}

abbrev error_of : {A : Type 0} → Run (Link Dongle) A → EspError
error_of (ok _ t) = t.error
error_of _ = reported 99 [] 0 0

nacked : error_of (error_check dongle 1 8 512 (link (1 ∷ 255 ∷ 0 ∷ 4 ∷ []))) ≡ reported 3 [] 0 4
unfolding error_check
nacked = refl

unsupported :
    error_of (espstlink_fetch_version dongle (link (255 ∷ 0 ∷ 0 ∷ 2 ∷ []))) ≡ reported 4 [] 0 2
unfolding espstlink_fetch_version
unsupported = refl

error_check-IsAnswer_example :
    Ends
      (IsAnswer dongle waiting dongle-Delivers
        (λ (s : Dongle). s.cells)
        (λ n s. refl)
        (5 ∷ 6 ∷ 7 ∷ 8 ∷ [])
        (link []).line.cells
        (link (2 ∷ 0 ∷ 5 ∷ 6 ∷ 7 ∷ 8 ∷ [])))
      Never
      (error_check dongle 2 4 4 (link (2 ∷ 0 ∷ 5 ∷ 6 ∷ 7 ∷ 8 ∷ [])))
error_check-IsAnswer_example =
    error_check-IsAnswer dongle waiting dongle-Delivers (λ (s : Dongle). s.cells) (λ n s. refl) 2 4
      4 (5 ∷ 6 ∷ 7 ∷ 8 ∷ []) (link (2 ∷ 0 ∷ 5 ∷ 6 ∷ 7 ∷ 8 ∷ [])) refl refl (omega arith)

not_short : (payload : List ℕ) → 1 ∷ 255 ∷ 0 ∷ 4 ∷ [] ≡ 1 ∷ 0 ∷ payload → length payload < 8
not_short payload e = absurd (cc e)

error_check-Reports_example :
    Ends
      (IsReported dongle waiting dongle-Delivers dongle_silent 1 8 (1 ∷ 255 ∷ 0 ∷ 4 ∷ []))
      Never
      (error_check dongle 1 8 512 (link (1 ∷ 255 ∷ 0 ∷ 4 ∷ [])))
error_check-Reports_example =
    error_check-Reports dongle waiting dongle-Delivers dongle_silent 1 8 512 (1 ∷ 255 ∷ 0 ∷ 4 ∷ [])
      (link (1 ∷ 255 ∷ 0 ∷ 4 ∷ [])) refl (omega arith) not_short
