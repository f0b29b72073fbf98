-- ===== src/Broker/Handlers/Messages.antt =====
-- The reads of a publisher's connection, one after the other.
use mini_pubsub_broker.Base.{
  ℕ, ◌+◌, ◌≡◌, refl, ap, ◌∙◌, sym, Option, none, some, List, [], ◌∷◌, ◌++◌, Bytes, length,
}
use mathlib.Core.Path.{fun_ext}
use mini_pubsub_broker.Client.{Run, bind_assoc, ok, fault, ◌>>=◌}
use mini_pubsub_broker.TrieUtil.{conv_to_alpha}
use mini_pubsub_broker.Broker.{Libraries, Server, PubClient, pub_cli_create}
use mini_pubsub_broker.Broker.Publish.{publish_all, channels_of, process_pub_read_buf-channels_of}
use mini_pubsub_broker.Broker.Handlers.{received, pub_read, pub_ev_handler}
use mini_pubsub_broker.Broker.Handlers.Session.{readable}

module _ (libs : Libraries) where
  -- The handler for each of several reads, as long as the connection is kept.
  abbrev pub read_messages :
      List Bytes → Option PubClient × Server libs → Run (Option PubClient × Server libs)
  read_messages [] r = ok r
  read_messages (msg ∷ msgs) (none, srv) = fault
  read_messages (msg ∷ msgs) (some c, srv) =
      pub_ev_handler libs srv c readable (received msg) >>= read_messages msgs

  -- Each message to the channels other than the empty one that it begins with, as the trie holds them.
  abbrev pub publish_messages : List Bytes → Server libs → Run (Server libs)
  publish_messages [] srv = ok srv
  publish_messages (msg ∷ msgs) srv =
      publish_all libs msg srv (channels_of libs srv.sub_trie msg) >>= publish_messages msgs

  -- The characters of a text are its bytes.
  abbrev pub AllPlain : List Bytes → Type 0
  AllPlain [] = Unit {0}
  AllPlain (msg ∷ msgs) =
      (conv_to_alpha libs.iconv msg (length msg + 1) ≡ msg ++ (0 ∷ [])) × AllPlain msgs

  pub pub_ev_handler-received :
      (srv : Server libs) (cfd : ℕ) (msg : Bytes)
      → conv_to_alpha libs.iconv msg (length msg + 1) ≡ msg ++ (0 ∷ [])
      → pub_ev_handler libs srv (pub_cli_create cfd) readable (received msg)
        ≡ publish_all libs msg srv (channels_of libs srv.sub_trie msg) >>= λ srv'.
            ok (some (pub_cli_create cfd), srv')
  unfolding pub_ev_handler pub_read pub_cli_create
  pub_ev_handler-received srv cfd msg plain =
      ap (λ r. r >>= λ (c, srv'). ok (some c, srv'))
        (process_pub_read_buf-channels_of libs (record { fd = cfd; read_buf = msg; write_buf = [] })
          srv plain)
      ∙ bind_assoc (publish_all libs msg srv (channels_of libs srv.sub_trie msg)) _ _

  -- When each read of a new publisher's connection is one message, which iconv converts to its own
  -- bytes, each goes to exactly the channels of the trie, other than the empty one, that it begins
  -- with, and nothing of it is left for the next one, if no publication faults.
  pub read_messages-publish_messages :
      (msgs : List Bytes) (srv : Server libs) (cfd : ℕ)
      → AllPlain msgs
      → read_messages msgs (some (pub_cli_create cfd), srv)
        ≡ publish_messages msgs srv >>= λ srv'. ok (some (pub_cli_create cfd), srv')
  read_messages-publish_messages [] srv cfd plain = refl
  read_messages-publish_messages (msg ∷ msgs) srv cfd plain =
      let sent = publish_all libs msg srv (channels_of libs srv.sub_trie msg) in
      ap (λ r. r >>= read_messages msgs) (pub_ev_handler-received srv cfd msg plain.0)
      ∙ bind_assoc sent _ _
      ∙ ap (λ k. sent >>= k)
          (fun_ext (λ srv'. read_messages-publish_messages msgs srv' cfd plain.1))
      ∙ sym (bind_assoc sent _ _)
