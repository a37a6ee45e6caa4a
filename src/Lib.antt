-- ===== src/Lib.antt =====
-- A model of the game server baiak-fonticak (C++, directory src/ of the repository), with the
-- theorems that make its parts correct. Numbers are native natural numbers; a word of w bits
-- keeps its wrap-around written out, and signed fields are either integers (Base/Int) or the bits
-- of their words (Base/Words). Pointers to players are their identifiers, 0 being the null
-- pointer.
--
-- The parts, and how they meet:
--
-- Base is the shared library: tests, lists, words, integers. The other modules use only its
-- names.
--
-- World models where things are. World/Position is struct Position of src/position.h with its
-- comparisons, sums and ranges; World/Direction is enum Direction of src/position.h with
-- getNextPosition, getDirectionTo and getDirection of src/tools.cpp. World/Paths is the store of
-- nodes of the search for paths, class AStarNodes of src/map.cpp: its arrays are functions of the
-- index, pointers into them are indices, and a search is a step relation on the store.
-- World/Sight is canThrowObjectTo, isSightClear, checkSightLine and isTileClear of src/map.cpp,
-- with the numbers of the line as words of 32 bits; the tiles are a function of the place.
--
-- Network models what goes to and comes from clients and files. Network/Buffer is a byte buffer
-- with memcpy. Network/Message is NetworkMessage of src/networkmessage.h and .cpp: each add and
-- get is a function of the message, the buffer, position, length and overrun flag being its
-- fields. Network/Output is OutputMessage of src/outputmessage.h with onSendMessage and
-- getOutputBuffer of src/protocol.cpp, which call Network/Xtea (src/xtea.cpp) to encrypt and
-- Network/Adler (adlerChecksum of src/tools.cpp) to sign; a failed assertion is none.
-- Network/PropStream is PropStream and PropWriteStream of src/fileloader.h.
--
-- Party models src/party.cpp and the party fields of src/player.cpp. One record holds the party
-- and, for each player, the party it points to and the parties that invited it, since the
-- operations change both. Its members, invitations and leader change in Party/Members; the script
-- events that may veto are functions of type Events, and what the party reads of players and of
-- the clock is a record World. Party/Steps has the operations as a step relation. Player::clearPartyInvitations is seen from
-- one of the inviting parties.
--
-- Player models how players advance (src/player.cpp, src/player.h). Player/Skills has
-- addSkillAdvance, removeSkillTries and getPercentLevel; Player/Magic has addManaSpent and
-- removeManaSpent; Player/Experience has getExpForLevel, addExperience and removeExperience. The
-- tries that a level of a skill asks for come from std::pow through src/vocation.cpp, as does the
-- mana of a magic level, and are a parameter; so are the script events that may change the
-- amounts. After a level changes the source tells the party to update its shared experience,
-- which is an operation of Party.
--
-- Tools models helpers of src/tools.cpp: the name tables and lookups (Tools/Effects,
-- Tools/Names), codes of damage and fluids (Tools/Codes), strings as lists of bytes
-- (Tools/Strings).
--
-- Files models the loader of binary files, src/fileloader.cpp. Files/Loader has the constructor's
-- checks, parseTree as a loop over the bytes with the stack of open nodes, and getProps; the
-- iterators into the file that the source keeps are the bytes between them. An exception is none.
--
-- Wildcards models the tree of names, src/wildcardtree.cpp: the recursion over a name goes down
-- as the loops of insert and remove do, and back as the stack of remove does. Wildcards/Trim is
-- its well-formedness, Wildcards/Words its meaning as a set of names.
--
-- Containers models src/container.cpp with getWeight of src/item.cpp. An item is the tree of what
-- it holds, a container in it is named by the indices that lead there, and apply_at is an
-- operation at the end of such a way with updateItemWeight on every container above it.
--
-- Tasks models the dispatcher of src/tasks.cpp with the thread states of
-- src/thread_holder_base.h. Its thread and the threads that add tasks run interleaved: Tasks has
-- a step for each stretch that the lock makes indivisible, with the notification of addTask as a
-- step of its own, and Tasks/Runs has the sequences of steps with the history of the tasks. A
-- task is a number that stands for a call into the game, or the lambda of shutdown. A wait of the
-- condition variable may end on its own, and a notification reaches the thread only while it
-- waits.
--
-- Bans models Ban::acceptConnection of src/ban.cpp, which limits the connections from one
-- address; the map of addresses is a function, and the clock is an argument.
--
-- Conditions models the conditions of creatures, src/condition.h and src/condition.cpp: a record
-- with the fields of the base class and, as its kind, the class with its own. Conditions/Codes
-- has the numbers of types and attributes, Writing and Reading the bytes of a condition, Creating
-- createCondition, Setting setParam with the numbers of Params, and Loading the loop of
-- loadPlayer in src/iologindata.cpp, whose counterpart in savePlayer is in Writing. Lasting and
-- Damaging are how conditions count their time, Bearer what they do to a creature at their start
-- and end, Renewing what they make of a new one of their key, and Carrying the list of conditions
-- of src/creature.cpp. A creature is the record of what they change. Values states what
-- conditions share in the speed and the skills, as a filling of the interface Gauge of
-- Conditions/Gauges; Changes is the sequence of operations. The clock, random numbers, what
-- floats make of percentages and the answers of the combat code are fields of the records World
-- and Harm, parameters of every operation; what combat and scripts do in between to the list is a
-- further operation of the sequence, and not one within executeConditions.
--
-- Bounds and fuel. Loops over data are structural. The loops of Player run on fuel: gaining
-- levels needs fuel of the level cap of 1000000, whose experience still fits 64 bits, since each
-- round raises the level; losing levels needs the level; gaining tries needs more fuel than the
-- tries, since each round takes at least one; losing tries or mana needs more than the level.
-- getItemHoldingCount needs more fuel than there are items. The loop that loads conditions needs
-- more fuel than there are conditions, and reading one runs on the number of its bytes, since
-- each attribute takes one. checkSightLine needs more fuel than its places are apart in both
-- coordinates together; where its sums leave 32 bits, which C++ leaves undefined, they wrap
-- around. explodeString runs on the length of its text and needs no more, since
-- each round shortens it.
--
-- Not modelled: input and output, the database, threads and sockets; the Lua interface, except
-- for the answers of events, which are parameters; random numbers; messages that only tell
-- clients of a change. The map beyond the nodes of its searches and the lines of sight, tiles,
-- the queries of containers, creatures but for their conditions, and the game loop are not
-- modelled: they tie items, creatures, clients and scripts together, and most of what they do is
-- input and output. Of conditions, what they do to health, mana, soul, light, outfit and
-- visibility, getParam and the icons are left out.
pub mod Bans
pub mod Base
pub mod Conditions
pub mod Containers
pub mod Files
pub mod Network
pub mod Party
pub mod Player
pub mod Tasks
pub mod Tools
pub mod Wildcards
pub mod World
