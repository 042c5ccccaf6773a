-- ===== src/Tests/Connector.antt =====
-- packages/wallet/src/connector.ts with a wallet that stays on one account.
use cardano_on_evm.Prelude.{includes}
use cardano_on_evm.Prelude.{◌≡◌, refl, false, []}
use cardano_on_evm.Prelude.{◌∷◌, Str, Bytes}
use cardano_on_evm.Wallet.Bytes.{to_hex}
use cardano_on_evm.Wallet.Address.{CardanoCredential}
use cardano_on_evm.Wallet.Connector.Session.{done, lace, bind, lift, call, settle}
use cardano_on_evm.Wallet.Connector.{
  unique, reconnect_if, check_network, candidates, parse_all, addresses, sign_data, open_session,
}
use cardano_on_evm.Wallet.Connector.Validity.{
  Tracks, Refuses, operations-Tracks, operations-Refuses,
}
use cardano_on_evm.Wallet.Connector.Signing.{Signed, sign_data-Signed}
use cardano_on_evm.Tests.Samples.{
  toy_crypto, no_bech32, sample_address, sample_message, sample_wallet, run_verify,
}

-- Nine calls: the network, two lists of addresses and the network again, around the signature.
signed_sample :
    sign_data toy_crypto no_bech32 lace 0
      (sample_wallet (1 ∷ 2 ∷ []))
      (to_hex sample_address)
      (1 ∷ 2 ∷ [])
      (record { invalid = false; wallet = 0 })
    ≡ (done (sample_message (1 ∷ 2 ∷ [])), record { invalid = false; wallet = 9 })
unfolding sign_data addresses check_network candidates parse_all includes unique reconnect_if bind
    lift call settle run_verify sample_message
signed_sample = refl

sign_data-Signed_example :
    Signed toy_crypto no_bech32 lace 0
      (sample_wallet (1 ∷ 2 ∷ []))
      (to_hex sample_address)
      (1 ∷ 2 ∷ [])
      (record { invalid = false; wallet = 0 })
      (record { invalid = false; wallet = 9 })
      (sample_message (1 ∷ 2 ∷ []))
sign_data-Signed_example =
    sign_data-Signed toy_crypto no_bech32 lace 0 (sample_wallet (1 ∷ 2 ∷ []))
      (to_hex sample_address) (1 ∷ 2 ∷ []) (record { invalid = false; wallet = 0 })
      (record { invalid = false; wallet = 9 }) (sample_message (1 ∷ 2 ∷ [])) signed_sample

operations-Tracks_example :
    Tracks (open_session lace 0 (sample_wallet []))
    × Tracks (check_network lace 0 (sample_wallet []))
    × ((c : CardanoCredential)
        → Tracks (addresses toy_crypto no_bech32 lace 0 (sample_wallet []) c))
    × ((a : Str) (payload : Bytes)
        → Tracks (sign_data toy_crypto no_bech32 lace 0 (sample_wallet []) a payload))
operations-Tracks_example = operations-Tracks toy_crypto no_bech32 lace 0 (sample_wallet [])

operations-Refuses_example :
    Refuses (check_network lace 0 (sample_wallet []))
    × ((c : CardanoCredential)
        → Refuses (addresses toy_crypto no_bech32 lace 0 (sample_wallet []) c))
    × ((a : Str) (payload : Bytes)
        → Refuses (sign_data toy_crypto no_bech32 lace 0 (sample_wallet []) a payload))
operations-Refuses_example = operations-Refuses toy_crypto no_bech32 lace 0 (sample_wallet [])
