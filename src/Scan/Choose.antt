-- ===== src/Scan/Choose.antt =====
-- The end of both scans of baseline/payment_service.py: what the transfers that were found say of
-- the payment.
use Prim.Native.Char.{code}
use fake_ui.Prelude.{
  ℕ, String, Bool, true, false, ◌&&◌, ◌||◌, ◌==◌, some, List, [], ◌∷◌, if◌then◌else◌, ltb, Decimal,
}
use fake_ui.Store.{Payment, Status}
use fake_ui.Service.{Verification}

pub record Candidate : Type 0 where
  pub txid : String
  pub detected_amount : Decimal
  pub confirmations : ℕ
  pub error : String

-- `<` of two texts
unfoldable pub str_ltb : String → String → Bool
str_ltb s String.[] = false
str_ltb String.[] (String.◌∷◌ d t) = true
str_ltb (String.◌∷◌ c s) (String.◌∷◌ d t) =
    ltb (code c) (code d) || (code c == code d && str_ltb s t)

-- `max` by confirmations and txid: the first of the greatest
unfoldable pub precedes : Candidate → Candidate → Bool
unfolding str_ltb
precedes a b =
    ltb a.confirmations b.confirmations
    || (a.confirmations == b.confirmations && str_ltb a.txid b.txid)

unfoldable pub best : Candidate → List Candidate → Candidate
unfolding precedes
best c [] = c
best c (d ∷ rest) = best (if precedes c d then d else c) rest

abbrev pub confirmed_by : Candidate → Verification
confirmed_by c = record {
  status = Status.confirmed;
  detected_amount = some c.detected_amount;
  confirmations = c.confirmations;
  error = "";
  txid = c.txid;
}

-- A finding that names no transaction.
abbrev pub found : Status → Candidate → String → Verification
found status c error = record {
  status = status;
  detected_amount = some c.detected_amount;
  confirmations = c.confirmations;
  error = error;
  txid = "";
}

abbrev pub nothing_found : Payment → Verification
nothing_found p = record {
  status = Status.awaiting_payment;
  detected_amount = p.detected_amount;
  confirmations = p.confirmations;
  error = "";
  txid = "";
}

unfoldable pub choose : Payment → List Candidate → List Candidate → Verification
unfolding best
choose p (c ∷ []) insufficient = confirmed_by c
choose p (c ∷ d ∷ rest) insufficient =
    found Status.ambiguous (best c (d ∷ rest)) "multiple matching transfers found, txid required"
choose p [] (c ∷ rest) = let b = best c rest in found Status.detected b b.error
choose p [] [] = nothing_found p
