-- ===== src/Http/Requests.antt =====
-- Runs of `read_request` of src/server/http.c.
use vibevoice_c.Common.{
  ℕ, zero, suc, ◌≡◌, refl, true, false, some, [], ◌∷◌, ◌++◌, replicate, All, arith,
}
use vibevoice_c.Http.{codes, skip_while}
use vibevoice_c.Http.Receive.{Call}
use vibevoice_c.Http.Arrival.{IsReady}
use vibevoice_c.Http.Request.{Header, Request, trim_end}
use vibevoice_c.Http.Sent.{IsHeader, IsSendable}
use vibevoice_c.Http.Measured.{head_of, length_header}
use vibevoice_c.Http.Decimal.{digits_of}
use vibevoice_c.Http.Exchange.{read_request, read_request-head_of}

abbrev pub seven : Call
seven = record { ready = 7; late = false }

pub replicate-IsReady : (n : ℕ) → All IsReady (replicate n seven)
replicate-IsReady zero = tt
replicate-IsReady (suc n) = ((omega arith, refl), replicate-IsReady n)

abbrev three : Header
three = record { name = codes "Content-Length"; value = codes "3" }

abbrev sent : Request
sent = record {
  method = codes "POST";
  path = codes "/v1";
  query = codes "x=1";
  headers = three ∷ [];
}

three-IsHeader : IsHeader three
unfolding skip_while trim_end
three-IsHeader = record {
  name_some = refl;
  name_colon = (
    refl,
    (
      refl,
      (
        refl,
        (refl, (refl, (refl, (refl, (refl, (refl, (refl, (refl, (refl, (refl, (refl, tt))))))))))),
      ),
    ),
  );
  name_newline = (
    refl,
    (
      refl,
      (
        refl,
        (refl, (refl, (refl, (refl, (refl, (refl, (refl, (refl, (refl, (refl, (refl, tt))))))))))),
      ),
    ),
  );
  name_zero = (
    refl,
    (
      refl,
      (
        refl,
        (refl, (refl, (refl, (refl, (refl, (refl, (refl, (refl, (refl, (refl, (refl, tt))))))))))),
      ),
    ),
  );
  name_short = omega arith;
  value_newline = (refl, tt);
  value_zero = (refl, tt);
  value_short = omega arith;
  value_start = refl;
  value_end = refl;
}

sent-IsSendable : IsSendable sent
sent-IsSendable = record {
  method_space = (refl, (refl, (refl, (refl, tt))));
  method_zero = (refl, (refl, (refl, (refl, tt))));
  method_short = omega arith;
  target_space = (refl, (refl, (refl, (refl, (refl, (refl, (refl, tt)))))));
  target_zero = (refl, (refl, (refl, (refl, (refl, (refl, (refl, tt)))))));
  target_short = omega arith;
  path_mark = (refl, (refl, (refl, tt)));
  headers_plain = (three-IsHeader, tt);
  headers_few = omega arith;
}

sent_length : sent.headers ≡ [] ++ length_header 3 ∷ []
unfolding digits_of
sent_length = refl

read_request-head_of_example :
    read_request (λ n. true) 1000 (replicate 50 seven) (head_of sent ++ codes "abc")
    ≡ some (sent, codes "abc")
read_request-head_of_example =
    read_request-head_of (λ n. true) 1000 sent [] [] (codes "abc") (replicate 50 seven) (λ n. refl)
      sent-IsSendable
      (
        refl,
        (
          refl,
          (
            refl,
            (
              refl,
              (
                refl,
                (
                  refl,
                  (
                    refl,
                    (
                      refl,
                      (
                        refl,
                        (
                          refl,
                          (
                            refl,
                            (
                              refl,
                              (
                                refl,
                                (refl, (refl, (refl, (refl, (refl, (refl, (refl, (refl, tt)))))))),
                              ),
                            ),
                          ),
                        ),
                      ),
                    ),
                  ),
                ),
              ),
            ),
          ),
        ),
      )
      sent_length tt tt (omega arith) (omega arith) (omega arith) (replicate-IsReady 50)
      (omega arith)
