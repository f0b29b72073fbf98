-- ===== src/Broker/Publish.antt =====
-- `process_pub_read_buf` publishes a message to the channels, other than the empty one, that it begins with.
use mini_pubsub_broker.Base.{
  ℕ, zero, suc, ◌+◌, ◌-◌, ◌≡◌, ◌<◌, refl, ap, ◌∙◌, sym, Option, some, List, [], ◌∷◌, ◌++◌,
  append_assoc, Bytes, length, take, drop, set, arith, length-append, take-append, drop-append,
}
use mathlib.Core.Path.{fun_ext, ap₂}
use mini_pubsub_broker.Libc.{byte_at}
use mini_pubsub_broker.Client.{Run, ok, ◌>>=◌}
use mini_pubsub_broker.TrieUtil.{conv_to_alpha, walk_loop, trie_walker}
use mini_pubsub_broker.TrieUtil.Walk.{
  beginnings, filter, filter-beginnings, matching, WalkEnd, no_key, key, walk_loop-WalkEnd,
}
use mini_pubsub_broker.Broker.{
  Libraries, PubClient, Server, single_chan_publish, publish_found, publish_loop,
  process_pub_read_buf,
}

-- The byte that a round cut off, put back.
set-set-byte_at :
    (msg : Bytes) (j : ℕ) → set (set (msg ++ (0 ∷ [])) j 0) j (byte_at msg j) ≡ msg ++ (0 ∷ [])
unfolding byte_at
set-set-byte_at [] zero = refl
set-set-byte_at [] (suc j) = refl
set-set-byte_at (b ∷ msg) zero = refl
set-set-byte_at (b ∷ msg) (suc j) = ap (λ r. b ∷ r) (set-set-byte_at msg j)

set-byte_at_zero : (msg : Bytes) → set (msg ++ (0 ∷ [])) 0 (byte_at msg 0) ≡ msg ++ (0 ∷ [])
unfolding byte_at
set-byte_at_zero [] = refl
set-byte_at_zero (b ∷ msg) = refl

take-set : (xs : Bytes) (j v : ℕ) → take j (set xs j v) ≡ take j xs
take-set [] j v = refl
take-set (x ∷ xs) zero v = refl
take-set (x ∷ xs) (suc j) v = ap (λ r. x ∷ r) (take-set xs j v)

module _ (libs : Libraries) where
  -- A message to several channels, one after the other.
  unfoldable pub publish_all : Bytes → Server libs → List Bytes → Run (Server libs)
  publish_all msg srv [] = ok srv
  publish_all msg srv (chan ∷ chans) =
      single_chan_publish libs msg srv chan >>= λ srv'. publish_all msg srv' chans

  -- The channels of a trie that a message begins with, the shortest first. The empty channel, which
  -- every message begins with and which the trie can hold, is not among them.
  unfoldable pub channels_of : libs.datrie.Trie → Bytes → List Bytes
  unfolding beginnings filter
  channels_of t msg = filter (libs.datrie.trie_retrieve t) (beginnings msg)

  pub channels_of-matching :
      (t : libs.datrie.Trie) (msg : Bytes)
      → channels_of t msg ≡ matching (libs.datrie.trie_retrieve t) [] msg
  unfolding channels_of
  channels_of-matching t msg = filter-beginnings (libs.datrie.trie_retrieve t) msg

  module _ (msg : Bytes) (t : libs.datrie.Trie) where
    -- One round that meets a key, with the search behind it given.
    publish_found-key :
        (next : ℕ → Bytes → libs.datrie.State → Server libs → Run (Server libs)) (k cur : ℕ)
        (prefix chan after : Bytes) (srv : Server libs) (s : libs.datrie.State)
        → set prefix k (byte_at msg k) ≡ msg ++ (0 ∷ [])
        → msg ≡ chan ++ after
        → cur + 1 ≡ length chan
        → publish_found libs next msg k prefix srv (some cur, s) ≡ (
            single_chan_publish libs msg srv chan
            >>= next (length chan) (set (msg ++ (0 ∷ [])) (length chan) 0) s)
    unfolding publish_found
    publish_found-key next k cur prefix chan after srv s ep em ec =
        let cut : take (length chan) (set (msg ++ (0 ∷ [])) (length chan) 0) ≡ chan =
          take-set (msg ++ (0 ∷ [])) (length chan) 0
          ∙ ap (λ (x : Bytes). take (length chan) (x ++ (0 ∷ []))) em
          ∙ ap (take (length chan)) (append_assoc chan after (0 ∷ []))
          ∙ take-append chan (after ++ (0 ∷ [])) in
        rw (ep, ec, cut)

    -- The search from behind `front` publishes to the channels that end behind it.
    abbrev Publishes : ℕ → Type 0
    Publishes fuel =
        (front rest prefix : Bytes) (s : libs.datrie.State) (srv : Server libs)
        → msg ≡ front ++ rest
        → length rest < fuel
        → libs.datrie.Walked t front s
        → set prefix (length front) (byte_at msg (length front)) ≡ msg ++ (0 ∷ [])
        → publish_loop libs fuel msg (msg ++ (0 ∷ [])) (length front) prefix s srv
          ≡ publish_all msg srv (matching (libs.datrie.trie_retrieve t) front rest)

    publish_found-WalkEnd :
        (fuel : ℕ) (front rest prefix : Bytes) (srv : Server libs)
        (r : Run (Option ℕ × libs.datrie.State))
        → Publishes fuel
        → msg ≡ front ++ rest
        → length rest < suc fuel
        → set prefix (length front) (byte_at msg (length front)) ≡ msg ++ (0 ∷ [])
        → WalkEnd libs.datrie t front rest (length front) r
        → (r
            >>= publish_found libs
                (publish_loop libs fuel msg (msg ++ (0 ∷ [])))
                msg
                (length front)
                prefix
                srv)
          ≡ publish_all msg srv (matching (libs.datrie.trie_retrieve t) front rest)
    unfolding publish_found publish_all
    publish_found-WalkEnd fuel front rest prefix srv r ih em h ep (no_key s e) =
        ap (publish_all msg srv) (sym e)
    publish_found-WalkEnd fuel front rest prefix srv r ih em h ep
          (key cur s part after er ei el w e) =
        let chan = front ++ part in
        let em' : msg ≡ chan ++ after =
          em ∙ ap (λ x. front ++ x) er ∙ sym (append_assoc front part after) in
        let prefix' = set (msg ++ (0 ∷ [])) (length chan) 0 in
        let later = λ (srv' : Server libs).
          ih chan after prefix' s srv' em' (omega arith) w (set-set-byte_at msg (length chan)) in
        publish_found-key (publish_loop libs fuel msg (msg ++ (0 ∷ []))) (length front) cur prefix
          chan after srv s ep em' (omega (arith, length-append front part))
        ∙ ap (λ k. single_chan_publish libs msg srv chan >>= k) (fun_ext later)
        ∙ ap (publish_all msg srv) (sym e)

    publish_loop-Publishes : (fuel : ℕ) → Publishes fuel
    unfolding publish_loop trie_walker
    publish_loop-Publishes zero front rest prefix s srv em h w ep = absurd (omega arith)
    publish_loop-Publishes (suc fuel) front rest prefix s srv em h w ep =
        let text = msg ++ (0 ∷ []) in
        let count : length msg - length front ≡ length rest =
          omega (arith, ap (length {0}) em, length-append front rest) in
        let ahead : drop (length front) text ≡ rest ++ (0 ∷ []) =
          ap (λ (x : Bytes). drop (length front) (x ++ (0 ∷ []))) em
          ∙ ap (drop (length front)) (append_assoc front rest (0 ∷ []))
          ∙ drop-append front (rest ++ (0 ∷ [])) in
        ap
          (λ r.
            r
            >>= publish_found libs (publish_loop libs fuel msg text) msg (length front) prefix srv)
          (ap₂ (λ (n : ℕ) (a : Bytes). walk_loop libs.datrie n s a (length front)) count ahead)
        ∙ publish_found-WalkEnd fuel front rest prefix srv _ (publish_loop-Publishes fuel) em h ep
            (walk_loop-WalkEnd libs.datrie t front rest (0 ∷ []) s (length front) w)

  -- A message that iconv converts to its own bytes goes to exactly the channels of the trie, other
  -- than the empty one, that it begins with, the shortest first. Each is looked up under its own
  -- bytes, though the code cuts and mends one copy of the message for all of them. The buffer is
  -- empty behind it.
  pub process_pub_read_buf-channels_of :
      (c : PubClient) (srv : Server libs)
      → conv_to_alpha libs.iconv c.read_buf (length c.read_buf + 1) ≡ c.read_buf ++ (0 ∷ [])
      → process_pub_read_buf libs c srv ≡ (
          publish_all c.read_buf srv (channels_of srv.sub_trie c.read_buf) >>= λ srv'.
          ok (record c { read_buf = [] }, srv'))
  unfolding process_pub_read_buf
  process_pub_read_buf-channels_of c srv ea =
      let msg = c.read_buf in
      ap₂
        (λ (buf : Bytes) (r : Run (Server libs)).
          r >>= λ srv'. ok (record c { read_buf = buf }, srv'))
        (libs.sds.sdsclear-nil msg)
        (ap
            (λ alpha.
              publish_loop libs (length msg + 1) msg alpha 0 (msg ++ (0 ∷ []))
                (libs.datrie.trie_root srv.sub_trie) srv)
            ea
          ∙ publish_loop-Publishes msg srv.sub_trie (length msg + 1) [] msg (msg ++ (0 ∷ []))
              (libs.datrie.trie_root srv.sub_trie) srv refl (omega arith)
              (libs.datrie.walked-root srv.sub_trie) (set-byte_at_zero msg)
          ∙ ap (publish_all msg srv) (sym (channels_of-matching srv.sub_trie msg)))
