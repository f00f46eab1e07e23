-- ===== src/Vault/Examples.antt =====
-- One credential, put and taken, on which the theorems about the vault are applied.
use hosting_control_panel.Common.{
  ◌+◌, ◌≡◌, refl, any, some, [], ◌∷◌, Text, text, text_eq, find, select, arith,
}
use hosting_control_panel.Vault.Store.{
  Cipher, IsCipher, Sealed, Vault, put, nothing, value, take_secret, valid_id, prune, lookup,
  delete,
}
use hosting_control_panel.Vault.Once.{take_once, put_take}

-- A cipher that hides nothing.
abbrev plain_cipher : Cipher
plain_cipher = record { seal = λ key iv s. (key, s); open_sealed = λ key iv s. some s.1 }

plain_cipher-IsCipher : IsCipher plain_cipher
plain_cipher-IsCipher = record { opens = λ key iv s. refl }

abbrev job_id : Text
job_id = text "0123456789ab-0123456789ab-0123456789"

abbrev password : Sealed
password = record {
  id = job_id;
  owner = text "admin";
  created_at = 1;
  expires_at = 100;
  iv = [];
  sealed = ([], text "hunter2");
}

abbrev one_secret : Vault
one_secret = record { ttl_ms = 99; key = []; records = password ∷ []; stored = password ∷ [] }

abbrev emptied : Vault
emptied = record { ttl_ms = 99; key = []; records = []; stored = [] }

takes :
    take_secret plain_cipher one_secret job_id (text "admin") 50 ≡ (emptied, value (text "hunter2"))
unfolding take_secret prune lookup delete any find select text text_eq
takes = refl

take_once_example : (take_secret plain_cipher emptied job_id (text "guest") 51).1 ≡ nothing
take_once_example =
    take_once plain_cipher one_secret job_id (text "admin") (text "guest") 50 51 takes

put_take_example :
    (v' : Vault) × (put plain_cipher emptied job_id (text "admin") (text "pw") [] 5
      ≡ some (v', 5 + 99))
    × ((take_secret plain_cipher v' job_id (text "admin") 90).1 ≡ value (text "pw"))
unfolding valid_id any text
put_take_example =
    put_take plain_cipher plain_cipher-IsCipher emptied job_id (text "admin") (text "pw") [] 5 90
      refl (omega arith)
