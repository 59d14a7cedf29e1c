-- ===== src/Lib.antt =====
-- keydesk manages one brigade of VPN users: it keeps the brigade's users, settings and counters in
-- the file brigade.json, tells the endpoint's API about interfaces and peers, and collects the
-- endpoint's statistics. The library models the storage of the brigade with what it stands on, the
-- services of users and messages over it, and the handlers that answer requests.
--
-- How the files correspond to the code:
--   Clock        the parts of Go's package time that the code uses: dates of instants, AddDate with
--                Go's normalisation, weeks. A time is the number of nanoseconds since the year 1.
--   Kdlib        kdlib/date.go, with Kdlib/Net for kdlib/net.go and Kdlib/Blur for kdlib/blur.go.
--   World        what the program acts on, as a state that its operations pass on: the files of the
--                brigade, the fates of the coming file-system calls, the coming answers of the
--                endpoint and the requests that it has done. World/FileDb is kdlib/filedb.go, and
--                World/Api is vpnapi/vpnapi.go and vpnapi/wgvpn.go.
--   Counters     traffic counters: the types of keydesk/storage/types.go and incDateSwitchRelated of
--                keydesk/storage/stats.go.
--   Storage      keydesk/storage: Types for types.go, Db for db.go, VpnConfigs for vpncfgs.go, Names
--                for the number in front of a user's name, Accounts, Users and Users/Assemble for
--                CreateUser and assembleUser, Removal for DeleteUser and UnblockUser, Replay for
--                replay.go, and Setup and Brigades for brigade.go, vip.go, reset.go, push.go,
--                messages.go, transaction.go and the queries of user.go.
--   Stats        the rest of keydesk/storage/stats.go, with Stats/Stack for StatsCountersStack of
--                keydesk/storage/types.go, and Stats/Maps and Stats/Parse for vpnapi/wgstat.go.
--                Traffic is handleTrafficStat, Activity is lastActivityMark and handleLastActivity,
--                Merge is the loop of mergeStats over the users, and Brigade is what follows the loop
--                and getStatsQuota.
--   Messages     the messages: Filter for pkg/filter and internal/messages/service/filter.go, Cleanup,
--                Page, Order and Service for internal/messages/service/service.go (cleanupMessages,
--                paginate, sortMessagesFactory, and the operations), and Handlers for
--                keydesk/messages.go and internal/messages/server/server.go.
--   Vpn          internal/vpn: Protocols and Generate for generator.go, Generators for the generators in
--                wg, ss, cloak, openvpn, ipsec and proto0, with Types for what they give, Client
--                for endpoint/client.go, and Sets for utils/set.go.
--   Service      internal/user: NewUsers for user.go and newUser of create.go, and Users for create.go,
--                delete.go, slots.go and stat.go. Service/Fresh, Creation and Deletion say what a
--                creation and a deletion do to a brigade, and Service/Transactions what the
--                transactions leave in the files.
--   Keydesk      keydesk/user.go in Users, Stats, NewUser (addUser and pickUpUser) and Answer
--                (assembleConfig, AddUser and AddBrigadier), keydesk/brigade.go in Brigade, and
--                internal/maintenance in Maintenance. Blocking is about two of the handlers.
--   Shuffler     internal/shuffler/app/run.go: the handlers over the users' service.
--   Durable      what sequences of those operations do to the files, with and without failures.
--   Examples     the theorems at concrete brigades, counters and addresses.
--
-- State and failures: an operation is a function from a world to a result and a world, `M`. A call of
-- the file system takes the next of the `fates` of the world and fails if it says so, and succeeds
-- where the list is at its end. A request to the endpoint takes the next of the `replies`; where none
-- is left there is no answer. A commit that cannot remove the temporary name leaves the main and the
-- temporary file as one file under two names: the next opening truncates it and then waits for its own
-- lock, which is the error `blocked_forever` here and leaves a handler without an answer. Errors are
-- values, by the message that the code wraps them in. The lock is not a part of the state: one process
-- holds it from the opening to the closing of a file, so no two operations overlap, and they are run
-- one after the other. A failed opening keeps the lock until the process ends, so the operation that
-- follows one is that of another process.
--
-- Numbers: counters are uint64, and their additions are written modulo 2 ^ 64. Addresses are numbers,
-- and the sums and masks of kdlib/net.go are written out. Random numbers, UUIDs and the time are
-- arguments. The loops of assembleUser that draw until a value is free go over a list of draws, and
-- end with an error that stands for a loop that has not ended where the list has no free value;
-- Storage/Users/Enough has what a list needs for them to end.
--
-- The priority and the TTL of a message are signed. A panic of the messages' service is an error of its
-- own: nothing is committed then, and the file is closed.
--
-- What the generation of keys, UUIDs and names gives is an argument, `none` where it fails: Secrets for
-- the users' service, KeyGen and BrigadeKeyGen for the package keydesk. The use of a nil pointer, and of
-- the bytes of an address that is none, is the error `panicked`. The users' service draws from lists as assembleUser does.
--
-- Maps are lists of entries, the newest in front. The program's times are after the year 1, where the
-- times of the model begin, and differences of times are cut off there.
--
-- Not modelled: key generation, gzip and certificates, which need cryptography or compression (the
-- certificate of the authority comes from a parameter, and so does the text of a network); the
-- texts of the configurations of the VPN kinds and the names of their files; the HTTP servers and the generated code of their APIs; the
-- made-up statistics for tests; the commands, which read flags and call the
-- storage; the JSON format, of which a file holds a value, nothing, or something that is none.
mod Prelude
pub mod Clock
pub mod Kdlib
pub mod Messages
pub mod Counters
pub mod Storage
pub mod World
pub mod Vpn
pub mod Service
pub mod Keydesk
pub mod Shuffler
pub mod Stats
pub mod Durable
pub mod Examples
