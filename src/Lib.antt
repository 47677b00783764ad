-- ===== src/Lib.antt =====
-- A model of express-botx, the server and command that sends messages to chats of eXpress, and
-- the theorems that make its core correct.
--
-- The parts. The configuration (internal/config) is loaded from a file, the environment and the
-- flags. The serve command (internal/cmd/serve.go) makes of it the keys, the senders of the
-- GitLab webhook, the chat resolver, the senders of the bots and the secrets of the bots for
-- callbacks, which it gives to the HTTP server (internal/server). A request reaches the server,
-- which authenticates it, works out its target chats, checks them against the scope of the
-- caller's key, and hands one payload per chat to a send function, which is given to the server.
-- Requests come as /send, as webhooks of GitLab, Alertmanager and Grafana, and as callbacks of
-- BotX, with a signed token. In synchronous mode /send passes its text through the mentions
-- parser (internal/mentions) for the bot that is to send it. The enqueue command
-- (internal/cmd/enqueue.go) routes its targets, by UUIDs or by the catalog that workers publish
-- (internal/queue), and puts one message per chat into a queue; the worker
-- (internal/cmd/worker.go) takes each message out, gets a token for its bot, sends it with
-- retries, and publishes the result.
--
-- The files.
--   Common, Text: helpers; a text is the list of its bytes. Text/Query is url.QueryUnescape.
--   Mentions: internal/mentions/parser.go. Scan is scan and indexAt, Token is parseTokenBody, Parse
--     is normalize and its three cases, mergeMentions and Parse.
--   Gitlab/Payload, Gitlab/Filter, Gitlab/Handler: internal/server/handler_gitlab.go, from
--     gitlabNestedGet to normalizeGitlab, the event filter, and handleGitlab with resolveGitlabAuth,
--     senderScopeTargets and gitlabDeliver.
--   Gitlab/Glob, Gitlab/Route, Gitlab/Route/Compile: internal/server/gitlab_routing.go, globMatch,
--     the selectors and evaluateRoutes, and CompileGitlabRoutes.
--   Server/Types: the payloads, contexts and responses that the handlers share; Server/Types/Uuid is
--     what isUUID accepts.
--   Server/Bots: resolveRequestBot of internal/server/server.go.
--   Server/MultiSend: internal/server/multisend.go.
--   Server/Auth: internal/server/auth.go, and the key map of New.
--   Server/Send, Server/Form: internal/server/handler_send.go; Form is parseMultipart.
--   Server/Notify: internal/server/handler_alertmanager.go and handler_grafana.go.
--   Server/Callbacks: internal/server/callback.go, callback_router.go and handler_callback.go.
--   Server/CallbackToken: internal/server/callback_jwt.go, joined to the command endpoint.
--   Config/Types, Config/Chats, Config/Bots, Config/Load, Config/Gitlab: internal/config/config.go, the
--     types, the methods on chats and on bots, Load and its variants, and the checks of the GitLab block.
--   Config/Secret: internal/secret/secret.go.
--   Serve/Keys, Serve/Sender: internal/cmd/serve.go, resolveAPIKeys, checkKeyCollisions,
--     buildGitlabConfig and buildGitlabSender; Serve/Sender/Templates is ParseGitlabTemplates of
--     internal/server/handler_gitlab.go. Serve/BotSender is newBotSender, botSender.Send and
--     buildSendRequest; Serve/BotSecrets is buildBotSecretLookup, joined to the callbacks endpoint.
--   Queue/Types, Queue/Catalog: internal/queue/queue.go and internal/queue/catalog.go.
--   Queue/Enqueue: internal/cmd/enqueue.go; Queue/Enqueue/Routes is the switch on the routing mode and
--     resolveViaCatalog.
--   Token/Cache: internal/token/file.go. Token/Auth: authenticate, refreshToken and newCache of
--     internal/cmd/cmd.go.
--   Worker: handleMessage of internal/cmd/worker.go and what it calls. Worker/Request is
--     BuildSendRequest of internal/botapi/client.go.
--   Command/Alias: the aliases of imported chats, internal/cmd/chats.go, generateChatAlias and
--     slugifyChatAlias. Command/Import is the loop of the import of chats. Command/Args is
--     reorderArgs of internal/cmd/cmd.go.
--   Tests: the theorems at concrete inputs.
--
-- State. What the server does outside is the list of the payloads handed to the send function,
-- on which its answers may depend; a handler takes that list and returns it, longer, with its
-- response. The worker has a machine: the file of the token cache, and the history of what was
-- requested, sent and published, latest first; the answers of BotX depend on that history. An
-- answer confirms a message or not; after an error other than 401, such as a lost response, BotX
-- may have taken the message all the same, and the theorems count confirmations only. The
-- configuration is passed from step to step. Local variables that a loop changes are the fields
-- of a record (Collected, ParseState) or arguments of the loop. Logging is left out.
--
-- Bounds. Only the scan of a message, trim_space and the search for an alias run on fuel. The
-- scan is given one round more than the message has bytes, and every round moves on by a byte at
-- least; scan-Tokens shows that it ends. trim_space is given the length of the text, and every
-- round takes a byte. The search for an alias is given one round more than there are aliases;
-- generate_chat_alias-fresh shows that it is enough. Lengths are natural numbers: no length in
-- this code comes near the bound of an int. The times of a token are int64 and wrap around. The
-- retry loop of the worker recurses on the attempts that are left.
--
-- Parameters. Regular expressions, encoding/json, mime/multipart, text/template,
-- strings.ToLower, time.ParseDuration, the printing of numbers, the transliteration, the chat
-- resolver, the send function, the lookup of users and the drawing of identifiers are arguments
-- of the definitions, and so are the reading of YAML, Vault, Base64, HMAC, the clock, the broker
-- and the API of BotX, which answers by what happened before. A set of keys in a map is a list
-- of pairs, of which the first with a key counts.
--
-- The program loops over some maps in no fixed order; here the order is that of the list.
--
-- Not modelled: reading the flags and the texts of the commands, and the commands that only
-- query or print; of the configuration, Validate, the loading for the api command, and saving;
-- the drivers of the queues, the HTTP client of BotX (internal/botapi), the token cache in
-- Vault, TLS reloading, the running of callback handlers, waiting between attempts, shutdown,
-- and the logs.
pub mod Common
pub mod Text
pub mod Mentions
pub mod Gitlab
pub mod Config
pub mod Serve
pub mod Queue
pub mod Token
pub mod Worker
pub mod Command
pub mod Server
pub mod Tests
