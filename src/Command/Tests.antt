-- ===== src/Command/Tests.antt =====
-- Concrete commands: the records are a number, which the command increases.
use competition_factory_serv.Prelude.{
  ℕ, ◌+◌, String, ◌≡◌, refl, ◌⊎◌, inr, true, false, none, some, List, [], ◌∷◌,
}
use competition_factory_serv.Command.Receipts.{
  Reply, Database, Applied, gave, Commit, committed, aborted, lost, replies, find_receipt, transact,
}
use competition_factory_serv.Command.Receipts.Once.{
  sends, IsUntouched, IsApplied, sends_at_most_once,
}
use competition_factory_serv.Command.Receipts.Resent.{resend_gets_answer}

abbrev reply : Reply Unit
reply = record {
  success = true;
  error = false;
  retryable = false;
  deduplicated = false;
  durable_receipt = false;
  command_id = none;
  body = tt;
}

abbrev increase : ℕ → Applied ℕ Unit String
increase n = gave reply (n + 1) ("audit" ∷ [])

abbrev empty : Database ℕ Unit
empty = record { records = 3; receipts = [] }

no_receipt : find_receipt empty.receipts "u1" "command-1" ≡ none
unfolding find_receipt
no_receipt = refl

abbrev fates : List Commit
fates = aborted ∷ lost ∷ committed ∷ []

sends_at_most_once_example :
    IsUntouched increase "u1" "command-1" "f" 3
      (sends increase "u1" "command-1" "f" empty [] fates).0
      (sends increase "u1" "command-1" "f" empty [] fates).1
    ⊎ IsApplied increase "u1" "command-1" "f" 3
        (sends increase "u1" "command-1" "f" empty [] fates).0
        (sends increase "u1" "command-1" "f" empty [] fates).1
sends_at_most_once_example = sends_at_most_once increase "u1" "command-1" "f" empty fates no_receipt

-- The lost answer is the one that took hold; the next send does not apply the command again.
sends_test : (sends increase "u1" "command-1" "f" empty [] fates).0.records ≡ 4
unfolding sends transact find_receipt
sends_test = refl

resend_gets_answer_example :
    let later = (sends increase "u1" "command-1" "f" empty [] (lost ∷ aborted ∷ [])).0 in
    ((transact increase later "u1" "command-1" "f" committed).outcome
      ≡ replies (record reply {
        deduplicated = true;
        durable_receipt = true;
        command_id = some "command-1";
      }))
    × ((transact increase later "u1" "command-1" "f" committed).database.records ≡ 4)
    × ((transact increase later "u1" "command-1" "f" committed).effects ≡ [])
resend_gets_answer_example =
    resend_gets_answer increase "u1" "command-1" "f" empty lost (aborted ∷ []) reply 4
      ("audit" ∷ []) no_receipt refl refl refl (inr refl)
