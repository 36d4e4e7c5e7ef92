-- ===== src/Wallet/Tests.antt =====
-- The wallet of one user, whose copy in Valkey is out of date.
use tts_platform.Common.{◌≡◌, refl, none, some, [], ◌∷◌, codes}
use tts_platform.Common.Int.{ℤ, pos, ◌-ℤ◌, ◌*ℤ◌}
use tts_platform.Common.Results.{ok}
use tts_platform.Numbers.Fixed.{fixed}
use tts_platform.Postgres.{exec, empty_tables}
use tts_platform.Valkey.Memory.{memory, memory_laws, empty_memory}
use tts_platform.Metering.Consumer.{debit_wallet, update_wallets, greatest, zero_numeric}
use tts_platform.Wallet.Cache.{
  WalletSnapshot, Codec, World, wallet_key, find_wallet, price_of, select_wallet, snapshot_of,
  load_db, from_l2, load_and_keep, load_l2_or_db, invalidate, refresh,
}
use tts_platform.Wallet.Fresh.{refresh-debited}
use tts_platform.Fixtures.{forgetful}

abbrev snap : ℤ → WalletSnapshot fixed
snap balance = record { balance_usd = balance; price_per_audio_minute_usd = pos 50_000 }

abbrev codec : Codec fixed
codec = record {
  marshal = λ s. ok (codes "{}");
  unmarshal = λ b. some (snap (pos 999));
  parse_uuid = λ b. ok b;
}

abbrev world : World fixed memory forgetful
world = record {
  db = record {
    tables = record (empty_tables fixed) {
      users =
          record {
            id = codes "u1";
            username = codes "ann";
            password_hash = [];
            price_per_audio_minute_usd = none;
          }
          ∷ [];
      wallets = record { user_id = codes "u1"; balance_usd = pos 500 } ∷ [];
    };
    faults = [];
  };
  redis = record empty_memory { cached = (codes "user:u1:wallet", codes "{}") ∷ [] };
  cache = tt;
}

refresh-debited_example : pos 380 ≡ greatest fixed (pos 500 -ℤ pos 120) (zero_numeric fixed)
unfolding refresh load_l2_or_db load_and_keep load_db select_wallet find_wallet price_of exec
    invalidate from_l2 wallet_key snapshot_of update_wallets debit_wallet greatest ◌-ℤ◌ ◌*ℤ◌
refresh-debited_example =
    refresh-debited fixed memory memory_laws forgetful codec (pos 50_000) (codes "u1") (pos 120)
      world (pos 500) none (snap (pos 380)) refl refl refl
