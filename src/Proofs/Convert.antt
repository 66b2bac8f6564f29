-- ===== src/Proofs/Convert.antt =====
-- op/type_converter.go: an account result of the Ethereum storage as one of Optimism. A text that is
-- no hexadecimal number is a panic, `none`.
use state_engine.Prelude.{◌-◌, Option, some, List, [], ◌∷◌, Bytes, length, drop, ◌>>=◌}
use state_engine.Libs.EthLib.{EthLib}
use state_engine.Proofs.AccountResult.{StorageResult, AccountResult, pad}
use state_engine.Proofs.OpVerifier.{OptimismStorageProof, OptimismAccountResult}

-- `BytesToHash`: the last 32 bytes, with zeros in front.
unfoldable pub bytes_to_hash : Bytes → Bytes
unfolding pad
bytes_to_hash b = let last = drop (length b - 32) b in pad (32 - length last) last

module _ (l : EthLib) where
  unfoldable pub decode_all : List Bytes → Option (List Bytes)
  decode_all [] = some []
  decode_all (text ∷ texts) =
      let rest = decode_all texts in l.decode text >>= λ node. rest >>= λ nodes. some (node ∷ nodes)

  unfoldable pub to_storage_proof : List StorageResult → Option (List OptimismStorageProof)
  unfolding decode_all bytes_to_hash
  to_storage_proof [] = some []
  to_storage_proof (r ∷ rs) =
      let rest = to_storage_proof rs in
      l.decode r.key >>= λ key. decode_all r.proof >>= λ proof. rest >>= λ proofs.
      some (record { key = bytes_to_hash key; value = r.value; proof = proof } ∷ proofs)

  unfoldable pub new : AccountResult → Option OptimismAccountResult
  unfolding decode_all to_storage_proof
  new res = decode_all res.account_proof >>= λ account_proof.
      to_storage_proof res.storage_proof >>= λ storage_proof. some (record {
        account_proof = account_proof;
        address = res.address;
        balance = res.balance;
        code_hash = res.code_hash;
        nonce = res.nonce;
        storage_hash = res.storage_hash;
        storage_proof = storage_proof;
      })
