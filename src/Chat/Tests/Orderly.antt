-- ===== src/Chat/Tests/Orderly.antt =====
-- The rounds in which ann connects, writes to all and leaves overflow no array.
use operating_systems.Common.{refl, [], arith, replicate, All}
use operating_systems.CText.{codes, tokens, is_space}
use operating_systems.Numbers.{pos}
use operating_systems.Chat.Connect.{cleared}
use operating_systems.Chat.Loop.{rounds, init_main}
use operating_systems.Chat.Loop.Polite.{IsPolite}
use operating_systems.Chat.Loop.Survives.{
  Survives, IsOrderly, nothing, line, silent, message, no_one, connects,
}
use operating_systems.Chat.Loop.Orderly.{rounds-Survives}
use operating_systems.Chat.Tests.Rounds.{all_ok, stay, arrival}

hi-IsPolite : IsPolite (codes "hi")
unfolding tokens is_space
hi-IsPolite = record {
  no_nul = (refl, (refl, tt));
  fits = omega arith;
  some_word = λ e. cc;
  few_words = omega arith;
  second_fits = tt;
}

exit-IsPolite : IsPolite (codes "\\exit")
unfolding tokens is_space
exit-IsPolite = record {
  no_nul = (refl, (refl, (refl, (refl, (refl, tt)))));
  fits = omega arith;
  some_word = λ e. cc;
  few_words = omega arith;
  second_fits = tt;
}

list-IsPolite : IsPolite (codes "\\list")
unfolding tokens is_space
list-IsPolite = record {
  no_nul = (refl, (refl, (refl, (refl, (refl, tt)))));
  fits = omega arith;
  some_word = λ e. cc;
  few_words = omega arith;
  second_fits = tt;
}

stay-IsOrderly : All IsOrderly stay
stay-IsOrderly = (
  record {
    connection_short =
        connects (arrival (pos 20)) (codes "ann") [] refl (refl, (refl, (refl, tt))) (omega arith);
    admin_typed = nothing;
    users_sent = λ i. silent;
  },
  (
    record {
      connection_short = no_one;
      admin_typed = nothing;
      users_sent = λ i. message (codes "hi") hi-IsPolite;
    },
    (
      record {
        connection_short = no_one;
        admin_typed = line (codes "\\list") list-IsPolite;
        users_sent = λ i. message (codes "\\exit") exit-IsPolite;
      },
      tt,
    ),
  ),
)

rounds-Survives_example : Survives (rounds all_ok stay (init_main cleared (replicate 32 0)))
rounds-Survives_example = rounds-Survives all_ok stay (replicate 32 0) stay-IsOrderly
